-- ===== src/Controller/Models/Reconcile.antt =====
-- `ModelReconciler.Reconcile` and `reconcileModel`.
use runbooks.Prelude.{String, ◌<>◌, ◌==◌, if◌then◌else◌, Bool, true, false, Option, none, some}
use runbooks.Kube.{Key}
use runbooks.Program.{
  Fetch, found, missing, fetch_error, get, Program, ret, halt, ◌>>=◌, ◌>>◌, perform, fail, stop,
  or_stop,
}
use runbooks.Library.{Library}
use runbooks.Api.{ObjectRef, model, dataset, Model, Dataset, get_image}
use runbooks.Api.Reason
use runbooks.Cloud.{Cloud, common_of, object_artifact_url, show_bucket_url, BucketUrl}
use runbooks.Controller.Status.{JobResult, reconcile_job}
use runbooks.Controller.Params.{reconcile_params_config_map}
use runbooks.Controller.ServiceAccounts.{modeller, reconcile_service_account}
use runbooks.Controller.Shared.{save_status, report}
use runbooks.Controller.Models.Job.{modeller_job}

module _ (L : Library) where
  -- The model is not complete, for the reason: the status says so, and a watch requeues it.
  unfoldable pub not_complete : {A : Type 0} → Model → String → Program A
  unfolding ◌>>=◌
  not_complete m reason = do
    stored ←
        save_status "failed to update model status" model
          (report L model false Reason.complete false reason "" m)
    stop

  unfoldable pub base_answer : Model → Fetch Model → Program (Option Model)
  unfolding not_complete
  base_answer m (found base) =
      if base.status.ready then ret (some base) else not_complete m Reason.base_model_not_ready
  base_answer m missing = not_complete m Reason.base_model_not_found
  base_answer m (fetch_error e) = fail ("getting source model: " <> e)

  unfoldable pub base_model : Model → Option ObjectRef → Program (Option Model)
  unfolding ◌>>=◌ base_answer
  base_model m none = ret none
  base_model m (some ref) = do
    answer ← perform (get model (record { namespace = m.metadata.namespace; name = ref.name }))
    base_answer m answer

  unfoldable pub dataset_answer : Model → Fetch Dataset → Program (Option Dataset)
  unfolding not_complete
  dataset_answer m (found d) =
      if d.status.ready then ret (some d) else not_complete m Reason.dataset_not_ready
  dataset_answer m missing = not_complete m Reason.dataset_not_found
  dataset_answer m (fetch_error e) = fail ("getting source model: " <> e)

  unfoldable pub training_dataset : Model → Option ObjectRef → Program (Option Dataset)
  unfolding ◌>>=◌ dataset_answer
  training_dataset m none = ret none
  training_dataset m (some ref) = do
    answer ← perform (get dataset (record { namespace = m.metadata.namespace; name = ref.name }))
    dataset_answer m answer

  -- The status by what the Job reports.
  abbrev pub after_job : Model → Bool → Bool → Model
  after_job m true failure = report L model true Reason.complete true Reason.job_complete "" m
  after_job m false false =
      report L model false Reason.complete false Reason.job_not_complete
        "Waiting for modeller Job to complete" m
  after_job m false true = report L model false Reason.complete false Reason.job_failed "" m

  unfoldable pub report_job : Model → JobResult → Program (Unit {0})
  unfolding ◌>>=◌
  report_job m r = do
    stored ← save_status "updating status" model (after_job m r.success r.failure)
    if r.success then ret tt else halt r.error

module _ (L : Library) (cloud : Cloud) where
  -- From the dependencies on, which are ready.
  unfoldable pub train : Model → Option Model → Option Dataset → Program (Unit {0})
  unfolding ◌>>=◌
  train m base data' = do
    job ← or_stop (modeller_job L cloud m base data')
    result ← reconcile_job job
    report_job L m result

  abbrev pub set_artifacts : Model → BucketUrl → Model
  set_artifacts m url = record m {
    status = record (m.status) { artifacts = record { url = show_bucket_url url } };
  }

  unfoldable pub gather : Model → Program (Unit {0})
  unfolding ◌>>=◌ train
  gather m = do
    reconcile_service_account cloud modeller m.metadata.namespace
    base ← base_model L m m.spec.model
    data' ← training_dataset L m m.spec.dataset
    train m base data'

  unfoldable pub reconcile_model : Model → Program (Unit {0})
  unfolding ◌>>=◌ gather
  reconcile_model m = if m.status.ready then ret tt else (do
    url ← or_stop (object_artifact_url L (common_of cloud) model m)
    gather (set_artifacts m url))

  unfoldable pub model_fetched : Fetch Model → Program (Unit {0})
  unfolding ◌>>=◌
  model_fetched (found m) =
      if get_image model m == ""
      then stop
      else reconcile_params_config_map L model m >> reconcile_model m
  model_fetched missing = stop
  model_fetched (fetch_error e) = fail e

  unfoldable pub reconcile : Key → Program (Unit {0})
  unfolding ◌>>=◌ model_fetched
  reconcile key = do answer ← perform (get model key); model_fetched answer
