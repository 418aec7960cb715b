-- ===== src/Controller/Datasets/Reconcile.antt =====
-- `DatasetReconciler.Reconcile` and `reconcileData`.
use runbooks.Prelude.{◌==◌, if◌then◌else◌, Bool, true, false}
use runbooks.Kube.{Key}
use runbooks.Program.{
  Fetch, found, missing, fetch_error, get, Program, ret, halt, ◌>>=◌, ◌>>◌, perform, fail, stop,
  or_stop,
}
use runbooks.Library.{Library}
use runbooks.Api.{dataset, Dataset, get_image}
use runbooks.Api.Reason
use runbooks.Cloud.{Cloud, common_of, object_artifact_url, show_bucket_url, BucketUrl}
use runbooks.Controller.Status.{JobResult, reconcile_job}
use runbooks.Controller.Params.{reconcile_params_config_map}
use runbooks.Controller.ServiceAccounts.{data_loader, reconcile_service_account}
use runbooks.Controller.Shared.{save_status, report}
use runbooks.Controller.Datasets.Job.{load_job}

module _ (L : Library) where
  abbrev pub after_job : Dataset → Bool → Bool → Dataset
  after_job d true failure = report L dataset true Reason.complete true Reason.job_complete "" d
  after_job d false false =
      report L dataset false Reason.complete false Reason.job_not_complete
        "Waiting for data loader Job to complete" d
  after_job d false true = report L dataset false Reason.complete false Reason.job_failed "" d

  unfoldable pub report_job : Dataset → JobResult → Program (Unit {0})
  unfolding ◌>>=◌
  report_job d r = do
    stored ← save_status "updating status" dataset (after_job d r.success r.failure)
    if r.success then ret tt else halt r.error

module _ (L : Library) (cloud : Cloud) where
  abbrev pub set_artifacts : Dataset → BucketUrl → Dataset
  set_artifacts d url = record d {
    status = record (d.status) { artifacts = record { url = show_bucket_url url } };
  }

  -- The Job is made before the status is saved, and run after it.
  unfoldable pub load : Dataset → Program (Unit {0})
  unfolding ◌>>=◌
  load d = do
    reconcile_service_account cloud data_loader d.metadata.namespace
    job ← or_stop (load_job L cloud d)
    stored ← save_status "updating status" dataset d
    result ← reconcile_job job
    report_job L stored result

  unfoldable pub reconcile_data : Dataset → Program (Unit {0})
  unfolding ◌>>=◌ load
  reconcile_data d = if d.status.ready then ret tt else (do
    url ← or_stop (object_artifact_url L (common_of cloud) dataset d)
    load (set_artifacts d url))

  unfoldable pub dataset_fetched : Fetch Dataset → Program (Unit {0})
  unfolding ◌>>=◌
  dataset_fetched (found d) =
      if get_image dataset d == ""
      then stop
      else reconcile_params_config_map L dataset d >> reconcile_data d
  dataset_fetched missing = stop
  dataset_fetched (fetch_error e) = fail e

  unfoldable pub reconcile : Key → Program (Unit {0})
  unfolding ◌>>=◌ dataset_fetched
  reconcile key = do answer ← perform (get dataset key); dataset_fetched answer
