-- ===== src/Controller/Models/Arrives.antt =====
-- The Model controller in a cluster where everything that a model needs is there.
use runbooks.Prelude.{◌≡◌, refl, ◌==◌, true, false, Option, none, some, []}
use runbooks.Kube.{Key, Job}
use runbooks.Program.{ok, found, get, History, Env, Outcome, finished, run}
use runbooks.Program.Reaches.{
  Reaches, ends, step, then-Reaches, else-Reaches, run-Reaches, >>=-Reaches, or_stop-Reaches,
}
use runbooks.Library.{Library}
use runbooks.Api.{model, dataset, Model, Dataset, ObjectRef, get_image}
use runbooks.Cloud.{Cloud, BucketUrl, common_of, object_artifact_url}
use runbooks.Controller.Willing.{
  Willing, Completes, EndsReady, Available, save_status-Reaches, account-Reaches, params-Reaches,
  job-Reaches,
}
use runbooks.Controller.Models.Job.{modeller_job}
use runbooks.Controller.Models.Reconcile.{
  base_answer, base_model, dataset_answer, training_dataset, after_job, report_job, train,
  set_artifacts, gather, reconcile_model, model_fetched, reconcile,
}

module _ (L : Library) {e : Env} (willing : Willing e) (m : Model) where
  base_model-Reaches :
      {Q : History → Outcome (Option Model) → Type 0} {h : History} (r : Option ObjectRef)
      (base : Option Model)
      → Available e model m.metadata.namespace r base
      → ((g : History) → Q g (finished base))
      → Reaches e Q h (base_model L m r)
  unfolding base_model base_answer
  base_model-Reaches none (some base) there next = absurd there
  base_model-Reaches (some ref) none there next = absurd there
  base_model-Reaches none none there next = ends (next _)
  base_model-Reaches (some ref) (some base) (ready, read) next =
      step (found base) (read _) (then-Reaches _ _ base.status.ready ready (ends (next _)))

  training_dataset-Reaches :
      {Q : History → Outcome (Option Dataset) → Type 0} {h : History} (r : Option ObjectRef)
      (d : Option Dataset)
      → Available e dataset m.metadata.namespace r d
      → ((g : History) → Q g (finished d))
      → Reaches e Q h (training_dataset L m r)
  unfolding training_dataset dataset_answer
  training_dataset-Reaches none (some d) there next = absurd there
  training_dataset-Reaches (some ref) none there next = absurd there
  training_dataset-Reaches none none there next = ends (next _)
  training_dataset-Reaches (some ref) (some d) (ready, read) next =
      step (found d) (read _) (then-Reaches _ _ d.status.ready ready (ends (next _)))

  report_job-Reaches :
      {h : History}
      → Reaches e
          (EndsReady model)
          h
          (report_job L m (record { success = true; failure = false; error = none }))
  unfolding report_job
  report_job-Reaches = >>=-Reaches (
      save_status-Reaches willing model _ (after_job L m true false)
        (ends (after_job L m true false, _, refl, refl)))

  train-Reaches :
      (cloud : Cloud)
      → Completes e
      → {h : History} (base : Option Model) (d : Option Dataset) (j : Job)
      → modeller_job L cloud m base d ≡ ok j
      → Reaches e (EndsReady model) h (train L cloud m base d)
  unfolding train
  train-Reaches cloud complete base d j made = >>=-Reaches (
      or_stop-Reaches _ j made
        (>>=-Reaches (job-Reaches willing complete j (λ g. report_job-Reaches))))

  gather-Reaches :
      (cloud : Cloud)
      → Completes e
      → (base : Option Model) (d : Option Dataset) (j : Job)
      → Available e model m.metadata.namespace m.spec.model base
      → Available e dataset m.metadata.namespace m.spec.dataset d
      → modeller_job L cloud m base d ≡ ok j
      → {h : History} → Reaches e (EndsReady model) h (gather L cloud m)
  unfolding gather
  gather-Reaches cloud complete base d j base_there data_there made = >>=-Reaches (
      account-Reaches willing
        (λ g. >>=-Reaches (
          base_model-Reaches m.spec.model base base_there (λ g'. >>=-Reaches (
            training_dataset-Reaches m.spec.dataset d data_there
              (λ g''. train-Reaches cloud complete base d j made)))))
        cloud _ _)

-- A model that is not ready and has an image and a kind becomes ready in one run if every write
-- succeeds, every Job is complete, the model and the dataset that it names are there and ready, and
-- its artifact URL and its Job can be made: the run finishes, and its last call saves the status with
-- Ready set.
pub model_becomes_ready :
    (L : Library) (cloud : Cloud) (e : Env) (key : Key) (m : Model) (url : BucketUrl)
    (base : Option Model) (d : Option Dataset) (j : Job)
    → Willing e
    → Completes e
    → e [] (get model key) ≡ found m
    → m.status.ready ≡ false
    → (get_image model m == "") ≡ false
    → (m.kind == "") ≡ false
    → object_artifact_url L (common_of cloud) model m ≡ ok url
    → Available e model m.metadata.namespace m.spec.model base
    → Available e dataset m.metadata.namespace m.spec.dataset d
    → modeller_job L cloud (set_artifacts L cloud m url) base d ≡ ok j
    → EndsReady model (run e [] (reconcile L cloud key)).0 (run e [] (reconcile L cloud key)).1
unfolding reconcile model_fetched reconcile_model
model_becomes_ready L cloud e key m url base d j willing complete read waiting built named artifacts
      base_there data_there made =
    run-Reaches (
      step {c = get model key} (found m) read (
        else-Reaches _ _ (get_image model m == "") built (
          >>=-Reaches (
            params-Reaches willing
              (λ g. else-Reaches _ _ m.status.ready waiting (
                >>=-Reaches (
                  or_stop-Reaches _ url artifacts (
                    gather-Reaches L willing (set_artifacts L cloud m url) cloud complete base d j
                      base_there data_there made))))
              L model m named))))
