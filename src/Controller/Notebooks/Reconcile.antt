-- ===== src/Controller/Notebooks/Reconcile.antt =====
-- `NotebookReconciler.Reconcile` and `reconcileNotebook`.
use runbooks.Prelude.{String, ◌<>◌, ◌==◌, if◌then◌else◌, Bool, true, false, Option, none, some}
use runbooks.Kube.{Key, Pod}
use runbooks.Program.{
  Fetch, found, missing, fetch_error, Deletion, deleted, gone, delete_error, Patch, patched,
  invalid, patch_error, get, get_pod, patch_pod, delete_pod, Program, ret, ◌>>=◌, ◌>>◌, perform,
  fail, stop, or_fail,
}
use runbooks.Library.{Library}
use runbooks.Api.{
  ObjectRef, model, dataset, notebook, Model, Dataset, Notebook, get_image, is_suspended,
}
use runbooks.Api.Reason
use runbooks.Cloud.{Cloud}
use runbooks.Controller.Status.{is_pod_ready, key_of}
use runbooks.Controller.Params.{reconcile_params_config_map}
use runbooks.Controller.ServiceAccounts.{notebook_account, reconcile_service_account}
use runbooks.Controller.Shared.{save_status, report}
use runbooks.Controller.Notebooks.Workspace.{pod_name, notebook_pod}

unfoldable pub after_suspend : Deletion → Program (Unit {0})
after_suspend deleted = stop
after_suspend gone = stop
after_suspend (delete_error e) = fail e

unfoldable pub after_invalid : {A : Type 0} → Deletion → Program A
after_invalid deleted = stop
after_invalid gone = fail "failed to delete pod: not found"
after_invalid (delete_error e) = fail ("failed to delete pod: " <> e)

-- A change of a field that cannot change: the Pod is deleted, and its event requeues.
unfoldable pub after_patch : Pod → Patch Pod → Program Pod
unfolding ◌>>=◌ after_invalid
after_patch p (patched q) = ret q
after_patch p invalid = do answer ← perform (delete_pod (key_of p.metadata)); after_invalid answer
after_patch p (patch_error e) = fail ("failed to apply pod: " <> e)

unfoldable pub after_get : Pod → Fetch Pod → Program Pod
after_get p (found q) = ret q
after_get p missing = ret p
after_get p (fetch_error e) = fail ("failed to get pod: " <> e)

module _ (L : Library) where
  unfoldable pub not_serving : {A : Type 0} → Notebook → String → Program A
  unfolding ◌>>=◌
  not_serving n reason = do
    stored ←
        save_status "failed to update notebook status" notebook
          (report L notebook false Reason.serving false reason "" n)
    stop

  unfoldable pub suspend : Notebook → Program (Unit {0})
  unfolding ◌>>=◌ pod_name after_suspend
  suspend n = do
    stored ←
        save_status "updating notebook status" notebook
          (report L notebook false Reason.serving false Reason.suspended "" n)
    answer ←
        perform
          (delete_pod (record { name = pod_name stored; namespace = stored.metadata.namespace }))
    after_suspend answer

  unfoldable pub model_answer : Notebook → Fetch Model → Program (Option Model)
  unfolding not_serving
  model_answer n (found m) =
      if m.status.ready then ret (some m) else not_serving n Reason.model_not_ready
  model_answer n missing = not_serving n Reason.model_not_found
  model_answer n (fetch_error e) = fail ("getting model: " <> e)

  -- A reference with no name is as none.
  unfoldable pub mounted_model : Notebook → Option ObjectRef → Program (Option Model)
  unfolding ◌>>=◌ model_answer
  mounted_model n none = ret none
  mounted_model n (some ref) = if ref.name == "" then ret none else (do
    answer ← perform (get model (record { name = ref.name; namespace = n.metadata.namespace }))
    model_answer n answer)

  unfoldable pub dataset_answer : Notebook → Fetch Dataset → Program (Option Dataset)
  unfolding not_serving
  dataset_answer n (found d) =
      if d.status.ready then ret (some d) else not_serving n Reason.dataset_not_ready
  dataset_answer n missing = not_serving n Reason.dataset_not_found
  dataset_answer n (fetch_error e) = fail ("getting dataset: " <> e)

  unfoldable pub mounted_dataset : Notebook → Option ObjectRef → Program (Option Dataset)
  unfolding ◌>>=◌ dataset_answer
  mounted_dataset n none = ret none
  mounted_dataset n (some ref) = if ref.name == "" then ret none else (do
    answer ← perform (get dataset (record { name = ref.name; namespace = n.metadata.namespace }))
    dataset_answer n answer)

  abbrev pub after_pod : Notebook → Bool → Notebook
  after_pod n true = report L notebook true Reason.serving true Reason.pod_ready "" n
  after_pod n false = report L notebook false Reason.serving false Reason.pod_not_ready "" n

  unfoldable pub report_pod : Notebook → Pod → Program (Unit {0})
  unfolding ◌>>=◌
  report_pod n p = do
    stored ← save_status "updating notebook status" notebook (after_pod n (is_pod_ready p))
    ret tt

module _ (L : Library) (cloud : Cloud) where
  unfoldable pub apply_pod : Pod → Program Pod
  unfolding ◌>>=◌ after_patch after_get
  apply_pod pod = do
    answer ← perform (patch_pod pod)
    applied ← after_patch pod answer
    again ← perform (get_pod (key_of applied.metadata))
    after_get applied again

  -- From the dependencies on, which are ready.
  unfoldable pub start : Notebook → Option Model → Option Dataset → Program (Unit {0})
  unfolding ◌>>=◌
  start n m data' = do
    pod ← or_fail "failed to construct pod" (notebook_pod L cloud n m data')
    current ← apply_pod pod
    report_pod L n current

  unfoldable pub resume : Notebook → Program (Unit {0})
  unfolding ◌>>=◌ start
  resume n = do
    reconcile_service_account cloud notebook_account n.metadata.namespace
    m ← mounted_model L n n.spec.model
    data' ← mounted_dataset L n n.spec.dataset
    start n m data'

  unfoldable pub reconcile_notebook : Notebook → Program (Unit {0})
  unfolding resume
  reconcile_notebook n = if is_suspended n then suspend L n else resume n

  unfoldable pub notebook_fetched : Fetch Notebook → Program (Unit {0})
  unfolding ◌>>=◌
  notebook_fetched (found n) =
      if get_image notebook n == ""
      then stop
      else reconcile_params_config_map L notebook n >> reconcile_notebook n
  notebook_fetched missing = stop
  notebook_fetched (fetch_error e) = fail e

  unfoldable pub reconcile : Key → Program (Unit {0})
  unfolding ◌>>=◌ notebook_fetched
  reconcile key = do answer ← perform (get notebook key); notebook_fetched answer
