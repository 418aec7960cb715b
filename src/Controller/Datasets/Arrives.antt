-- ===== src/Controller/Datasets/Arrives.antt =====
-- The Dataset controller in a cluster where every write succeeds and the Job is complete.
use runbooks.Prelude.{◌≡◌, refl, ◌==◌, true, false, none, []}
use runbooks.Kube.{Key, Job}
use runbooks.Program.{ok, found, get, History, Env, run}
use runbooks.Program.Reaches.{
  Reaches, ends, step, else-Reaches, run-Reaches, >>=-Reaches, or_stop-Reaches,
}
use runbooks.Library.{Library}
use runbooks.Api.{dataset, Dataset, get_image}
use runbooks.Cloud.{Cloud, BucketUrl, common_of, object_artifact_url}
use runbooks.Controller.Willing.{
  Willing, Completes, EndsReady, save_status-Reaches, account-Reaches, params-Reaches, job-Reaches,
}
use runbooks.Controller.Datasets.Job.{load_job}
use runbooks.Controller.Datasets.Reconcile.{
  after_job, report_job, set_artifacts, load, reconcile_data, dataset_fetched, reconcile,
}

module _ (L : Library) {e : Env} (willing : Willing e) (d : Dataset) where
  report_job-Reaches :
      {h : History}
      → Reaches e
          (EndsReady dataset)
          h
          (report_job L d (record { success = true; failure = false; error = none }))
  unfolding report_job
  report_job-Reaches = >>=-Reaches (
      save_status-Reaches willing dataset _ (after_job L d true false)
        (ends (after_job L d true false, _, refl, refl)))

  load-Reaches :
      (cloud : Cloud)
      → Completes e
      → (j : Job) → load_job L cloud d ≡ ok j
      → {h : History} → Reaches e (EndsReady dataset) h (load L cloud d)
  unfolding load
  load-Reaches cloud complete j made = >>=-Reaches (
      account-Reaches willing
        (λ g. >>=-Reaches (
          or_stop-Reaches _ j made (
            >>=-Reaches (
              save_status-Reaches willing dataset _ d
                (>>=-Reaches (job-Reaches willing complete j (λ g'. report_job-Reaches)))))))
        cloud _ _)

-- A dataset that is not ready and has an image and a kind becomes ready in one run if every write
-- succeeds, every Job is complete, and its artifact URL and its Job can be made: the run finishes, and
-- its last call saves the status with Ready set.
pub dataset_becomes_ready :
    (L : Library) (cloud : Cloud) (e : Env) (key : Key) (d : Dataset) (url : BucketUrl) (j : Job)
    → Willing e
    → Completes e
    → e [] (get dataset key) ≡ found d
    → d.status.ready ≡ false
    → (get_image dataset d == "") ≡ false
    → (d.kind == "") ≡ false
    → object_artifact_url L (common_of cloud) dataset d ≡ ok url
    → load_job L cloud (set_artifacts L cloud d url) ≡ ok j
    → EndsReady dataset (run e [] (reconcile L cloud key)).0 (run e [] (reconcile L cloud key)).1
unfolding reconcile dataset_fetched reconcile_data
dataset_becomes_ready L cloud e key d url j willing complete read waiting built named artifacts
      made =
    run-Reaches (
      step {c = get dataset key} (found d) read (
        else-Reaches _ _ (get_image dataset d == "") built (
          >>=-Reaches (
            params-Reaches willing
              (λ g. else-Reaches _ _ d.status.ready waiting (
                >>=-Reaches (
                  or_stop-Reaches _ url artifacts
                    (load-Reaches L willing (set_artifacts L cloud d url) cloud complete j made))))
              L dataset d named))))
