-- ===== src/Controller/Datasets/Runs.antt =====
-- What every run of the Dataset controller keeps to.
use runbooks.Prelude.{◌≡◌, refl, ◌==◌, Bool, true, false, []}
use runbooks.Kube.{Key, Job}
use runbooks.Program.{
  found, get, update_status, Call, ◌>>=◌, or_stop, History, Env, Outcome, finished, halted,
  panicked, run,
}
use runbooks.Program.Always.{
  Always, done, stops, Each, run-answered, >>=-Always, Always-mono, Then, or_stop-Always, if-Always,
}
use runbooks.Program.Only.{Only-Always, prepares}
use runbooks.Library.{Library, SetsCondition}
use runbooks.Api.{dataset, Dataset, get_image}
use runbooks.Cloud.{Cloud, common_of, object_artifact_url}
use runbooks.Controller.Status.{JobResult, reconcile_job}
use runbooks.Controller.Shared.{save_status}
use runbooks.Controller.Sorts.{
  save_status-Always, reconcile_service_account-Only, reconcile_params_config_map-Only,
}
use runbooks.Controller.Outcome.{Completed, Agrees, JobEnd, reconcile_job-Completed, report-Agrees}
use runbooks.Controller.Datasets.Job.{load_job}
use runbooks.Controller.Datasets.Reconcile.{
  after_job, report_job, load, set_artifacts, reconcile_data, dataset_fetched, reconcile,
}

-- A status is saved with `Ready` only if its condition `Complete` is true and the Job last seen is
-- complete.
abbrev pub Kept : History → Call → Type 0
Kept h (update_status dataset d) = d.status.ready ≡ true → Agrees dataset "Complete" d × Completed h
Kept h _ = Unit

abbrev Any : {A : Type 0} → History → Outcome A → Type 0
Any h o = Unit {0}

prepares-Kept : (h : History) (c : Call) → prepares c ≡ true → Kept h c
prepares-Kept h (update_status dataset d) p = cc
prepares-Kept h _ p = tt

module _ (L : Library) (law : SetsCondition L.set_status_condition) where
  after_job-Kept :
      (d : Dataset) (h : History) (success failure : Bool)
      → (success ≡ true → Completed h)
      → (after_job L d success failure).status.ready ≡ true
      → Agrees dataset "Complete" (after_job L d success failure) × Completed h
  after_job-Kept d h true failure complete ready =
      (report-Agrees L law dataset true "Complete" _ _ d, complete refl)
  after_job-Kept d h false false complete ready = cc
  after_job-Kept d h false true complete ready = cc

  reported :
      (d : Dataset) (h : History) (e : Outcome JobResult)
      → JobEnd h e
      → Then Kept Any (report_job L d) h e
  unfolding report_job
  reported d h (finished r) complete = >>=-Always (
      save_status-Always dataset _ _ (after_job-Kept d h r.success r.failure complete)
        (λ stored. if-Always (r.success) (λ y. done tt) (λ n. stops tt)) (λ g e. tt))
  reported d h (halted e) complete = tt
  reported d h (panicked s) complete = tt

module _ (L : Library) (law : SetsCondition L.set_status_condition) (cloud : Cloud) where
  loaded :
      {h : History} (d : Dataset) (job : Job)
      → d.status.ready ≡ false
      → Always Kept Any h (
          save_status "updating status" dataset d >>= λ stored.
          reconcile_job job >>= report_job L stored)
  loaded d job waits = >>=-Always (
      save_status-Always dataset _ d (λ ready. cc)
        (λ stored.
          >>=-Always
            (Always-mono (reported L law stored) (reconcile_job-Completed job tt (λ g key. tt))))
        (λ g e. tt))

  load-Kept :
      {h : History} (d : Dataset) → d.status.ready ≡ false → Always Kept Any h (load L cloud d)
  unfolding load
  load-Kept d waits =
      >>=-Always (Only-Always prepares-Kept accounted (reconcile_service_account-Only cloud _ _))
    where
      accounted :
          (g : History) (e : Outcome (Unit {0}))
          → Then Kept Any
              (λ u. or_stop (load_job L cloud d) >>= λ job.
                save_status "updating status" dataset d >>= λ stored.
                reconcile_job job >>= report_job L stored)
              g
              e
      accounted g (finished u) =
          >>=-Always
            (or_stop-Always (load_job L cloud d) (λ job built. loaded d job waits) tt (λ s. tt))
      accounted g (halted x) = tt
      accounted g (panicked s) = tt

  reconcile_data-Kept : {h : History} (d : Dataset) → Always Kept Any h (reconcile_data L cloud d)
  unfolding reconcile_data
  reconcile_data-Kept d =
      if-Always (d.status.ready) (λ ready. done tt)
        (λ waits. >>=-Always (
          or_stop-Always (object_artifact_url L (common_of cloud) dataset d)
            (λ url e. load-Kept (set_artifacts L cloud d url) waits) tt (λ s. tt)))

  dataset_fetched-Kept :
      {h : History} (d : Dataset) → Always Kept Any h (dataset_fetched L cloud (found d))
  unfolding dataset_fetched
  dataset_fetched-Kept d =
      if-Always (get_image dataset d == "") (λ empty. stops tt)
        (λ built.
          >>=-Always
            (Only-Always prepares-Kept configured (reconcile_params_config_map-Only L dataset d)))
    where
      configured :
          (g : History) (e : Outcome (Unit {0})) → Then Kept Any (λ u. reconcile_data L cloud d) g e
      configured g (finished u) = reconcile_data-Kept d
      configured g (halted x) = tt
      configured g (panicked s) = tt

  -- In every run that reads a dataset: a status is saved with `Ready` set only if its condition
  -- `Complete` is true and the loader Job that the server showed last is complete.
  pub dataset_runs-Kept :
      (e : Env) (key : Key) (d : Dataset)
      → e [] (get dataset key) ≡ found d
      → Each Kept (run e [] (reconcile L cloud key)).0
  unfolding reconcile
  dataset_runs-Kept e key d read =
      run-answered e (dataset_fetched L cloud) read tt (dataset_fetched-Kept d)
