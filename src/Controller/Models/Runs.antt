-- ===== src/Controller/Models/Runs.antt =====
-- What every run of the Model controller keeps to.
use runbooks.Prelude.{◌≡◌, ◌==◌, Option, []}
use runbooks.Kube.{Key}
use runbooks.Program.{found, get, ◌>>=◌, History, Env, Outcome, finished, halted, panicked, run}
use runbooks.Program.Always.{
  Always, done, stops, Each, run-answered, >>=-Always, Always-mono, Then, or_stop-Always, if-Always,
}
use runbooks.Program.Only.{Only-Always}
use runbooks.Library.{Library, SetsCondition}
use runbooks.Api.{model, dataset, Model, Dataset, get_image}
use runbooks.Cloud.{Cloud, common_of, object_artifact_url}
use runbooks.Controller.Sorts.{reconcile_service_account-Only, reconcile_params_config_map-Only}
use runbooks.Controller.Outcome.{reconcile_job-Completed}
use runbooks.Controller.Needs.{ReadyRef}
use runbooks.Controller.Models.Job.{modeller_job}
use runbooks.Controller.Models.Reconcile.{
  base_model, training_dataset, train, set_artifacts, gather, reconcile_model, model_fetched,
  reconcile,
}
use runbooks.Controller.Models.Steps.{
  Kept, Any, prepares-Kept, BaseEnd, DataEnd, base_model-Kept, training_dataset-Kept, reported,
}

module _ (L : Library) (law : SetsCondition L.set_status_condition) (cloud : Cloud) where
  train-Kept :
      {h : History} (m : Model) (base : Option Model) (data' : Option Dataset)
      → ReadyRef model m.metadata.namespace m.spec.model h
      → ReadyRef dataset m.metadata.namespace m.spec.dataset h
      → Always (Kept m) Any h (train L cloud m base data')
  unfolding train
  train-Kept m base data' base_ready data_ready = >>=-Always (
      or_stop-Always (modeller_job L cloud m base data')
        (λ job built. >>=-Always (
          Always-mono (reported L law m)
            (reconcile_job-Completed job (base_ready, data_ready) (λ g key. tt))))
        tt (λ s. tt))

  with_data :
      (m : Model) (base : Option Model) (h : History) (e : Outcome (Option Dataset))
      → DataEnd L law m m.spec.dataset h e
      → Then (Kept m) Any (train L cloud m base) h e
  with_data m base h (finished data') ready = train-Kept m base data' ready.0 ready.1
  with_data m base h (halted e) ready = tt
  with_data m base h (panicked s) ready = tt

  with_base :
      (m : Model) (h : History) (e : Outcome (Option Model))
      → BaseEnd L law m m.spec.model h e
      → Then (Kept m) Any (λ base. training_dataset L m m.spec.dataset >>= train L cloud m base) h e
  with_base m h (finished base) ready =
      >>=-Always
        (Always-mono (with_data m base) (training_dataset-Kept L law m m.spec.dataset ready))
  with_base m h (halted e) ready = tt
  with_base m h (panicked s) ready = tt

  gather-Kept : {h : History} (m : Model) → Always (Kept m) Any h (gather L cloud m)
  unfolding gather
  gather-Kept m =
      >>=-Always
        (Only-Always (prepares-Kept L law m) accounted (reconcile_service_account-Only cloud _ _))
    where
      accounted :
          (g : History) (e : Outcome (Unit {0}))
          → Then
              (Kept m)
              Any
              (λ u. base_model L m m.spec.model >>= λ base.
                training_dataset L m m.spec.dataset >>= train L cloud m base)
              g
              e
      accounted g (finished u) =
          >>=-Always (Always-mono (with_base m) (base_model-Kept L law m m.spec.model))
      accounted g (halted x) = tt
      accounted g (panicked s) = tt

  reconcile_model-Kept :
      {h : History} (m : Model) → Always (Kept m) Any h (reconcile_model L cloud m)
  unfolding reconcile_model
  reconcile_model-Kept m =
      if-Always (m.status.ready) (λ ready. done tt)
        (λ other. >>=-Always (
          or_stop-Always (object_artifact_url L (common_of cloud) model m)
            (λ url e. gather-Kept (set_artifacts L cloud m url)) tt (λ s. tt)))

  model_fetched-Kept :
      {h : History} (m : Model) → Always (Kept m) Any h (model_fetched L cloud (found m))
  unfolding model_fetched
  model_fetched-Kept m =
      if-Always (get_image model m == "") (λ empty. stops tt)
        (λ built. >>=-Always (
          Only-Always (prepares-Kept L law m) configured
            (reconcile_params_config_map-Only L model m)))
    where
      configured :
          (g : History) (e : Outcome (Unit {0}))
          → Then (Kept m) Any (λ u. reconcile_model L cloud m) g e
      configured g (finished u) = reconcile_model-Kept m
      configured g (halted x) = tt
      configured g (panicked s) = tt

  -- In every run that reads the model `m`: the modeller Job is created only after the base model and
  -- the dataset that `m` refers to were read and were ready, each saved status of a model has a
  -- condition `Complete` that is true exactly if `Ready` is set, and `Ready` is set only if the Job
  -- that the server showed last is complete.
  pub model_runs-Kept :
      (e : Env) (key : Key) (m : Model)
      → e [] (get model key) ≡ found m
      → Each (Kept m) (run e [] (reconcile L cloud key)).0
  unfolding reconcile
  model_runs-Kept e key m read =
      run-answered e (model_fetched L cloud) read tt (model_fetched-Kept m)
