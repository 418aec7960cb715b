-- ===== src/Controller/Notebooks/Runs.antt =====
-- What every run of the Notebook controller keeps to.
use runbooks.Prelude.{◌≡◌, refl, ◌==◌, false, Option, some, [], ◌∷◌}
use runbooks.Kube.{Key, Pod}
use runbooks.Program.{
  Fetch, found, missing, fetch_error, deleted, gone, delete_error, Patch, patched, invalid,
  patch_error, get, get_pod, patch_pod, perform, ◌>>=◌, History, Env, Outcome, finished, halted,
  panicked, run,
}
use runbooks.Program.Always.{
  Always, done, ask, stops, Each, run-answered, >>=-Always, Always-mono, Then, or_fail-Always,
  if-Always,
}
use runbooks.Program.Only.{Only-Always}
use runbooks.Program.Latest.{latest_pod}
use runbooks.Library.{Library, SetsCondition}
use runbooks.Api.{model, dataset, notebook, Model, Dataset, Notebook, get_image, is_suspended}
use runbooks.Cloud.{Cloud}
use runbooks.Controller.Status.{key_of}
use runbooks.Controller.Sorts.{reconcile_service_account-Only, reconcile_params_config_map-Only}
use runbooks.Controller.Needs.{ReadyIfNamed}
use runbooks.Controller.Notebooks.Workspace.{notebook_pod}
use runbooks.Controller.Notebooks.Reconcile.{
  after_patch, after_get, mounted_model, mounted_dataset, apply_pod, start, resume,
  reconcile_notebook, notebook_fetched, reconcile,
}
use runbooks.Controller.Notebooks.Steps.{
  Kept, Any, prepares-Kept, ModelEnd, DataEnd, suspend-Kept, mounted_model-Kept,
  mounted_dataset-Kept, PodEnd, reported,
}

module _ (L : Library) (law : SetsCondition L.set_status_condition) (cloud : Cloud)
    (n : Notebook) where
  after_get-Seen :
      {h : History} (p : Pod) (key : Key) (a : Fetch Pod)
      → latest_pod h ≡ some p
      → Always (Kept n) (PodEnd L law n) ((get_pod key, a) ∷ h) (after_get p a)
  unfolding after_get
  after_get-Seen p key (found q) seen = done refl
  after_get-Seen p key missing seen = done seen
  after_get-Seen p key (fetch_error e) seen = stops tt

  after_patch-Seen :
      {h : History} (p : Pod) (a : Patch Pod)
      → Always (Kept n) (PodEnd L law n) ((patch_pod p, a) ∷ h) (after_patch p a)
  unfolding after_patch
  after_patch-Seen p (patched q) = done refl
  after_patch-Seen p invalid =
      ask tt (elim [ deleted ↦ stops tt | gone ↦ stops tt | delete_error e ↦ stops tt ])
  after_patch-Seen p (patch_error e) = stops tt

  fetched_again :
      (h : History) (e : Outcome Pod)
      → PodEnd L law n h e
      → Then
          (Kept n)
          (PodEnd L law n)
          (λ applied. perform (get_pod (key_of applied.metadata)) >>= after_get applied)
          h
          e
  unfolding ◌>>=◌
  fetched_again h (finished p) seen = ask tt (λ a. after_get-Seen p (key_of p.metadata) a seen)
  fetched_again h (halted e) seen = tt
  fetched_again h (panicked s) seen = tt

  apply_pod-Seen :
      {h : History} (p : Pod)
      → Kept n h (patch_pod p)
      → Always (Kept n) (PodEnd L law n) h (apply_pod L cloud p)
  unfolding apply_pod
  apply_pod-Seen p may =
      ask may (λ a. >>=-Always (Always-mono fetched_again (after_patch-Seen p a)))

  start-Kept :
      {h : History} (m : Option Model) (data' : Option Dataset)
      → is_suspended n ≡ false
      → ReadyIfNamed model n.metadata.namespace n.spec.model h
      → ReadyIfNamed dataset n.metadata.namespace n.spec.dataset h
      → Always (Kept n) Any h (start L cloud n m data')
  unfolding start
  start-Kept m data' awake m_ready d_ready = >>=-Always (
      or_fail-Always _ (notebook_pod L cloud n m data')
        (λ pod built.
          >>=-Always
            (Always-mono (reported L law n) (apply_pod-Seen pod (awake, m_ready, d_ready))))
        (λ e. tt) (λ s. tt))

  with_data :
      (m : Option Model)
      → is_suspended n ≡ false
      → (h : History) (e : Outcome (Option Dataset)) → DataEnd L law n n.spec.dataset h e
      → Then (Kept n) Any (start L cloud n m) h e
  with_data m awake h (finished d) ready = start-Kept m d awake ready.0 ready.1
  with_data m awake h (halted e) ready = tt
  with_data m awake h (panicked s) ready = tt

  with_model :
      is_suspended n ≡ false
      → (h : History) (e : Outcome (Option Model)) → ModelEnd L law n n.spec.model h e
      → Then (Kept n) Any (λ m. mounted_dataset L n n.spec.dataset >>= start L cloud n m) h e
  with_model awake h (finished m) ready =
      >>=-Always
        (Always-mono (with_data m awake) (mounted_dataset-Kept L law n n.spec.dataset ready))
  with_model awake h (halted e) ready = tt
  with_model awake h (panicked s) ready = tt

  resume-Kept : {h : History} → is_suspended n ≡ false → Always (Kept n) Any h (resume L cloud n)
  unfolding resume
  resume-Kept awake =
      >>=-Always
        (Only-Always (prepares-Kept L law n) accounted (reconcile_service_account-Only cloud _ _))
    where
      accounted :
          (g : History) (e : Outcome (Unit {0}))
          → Then
              (Kept n)
              Any
              (λ u. mounted_model L n n.spec.model >>= λ m.
                mounted_dataset L n n.spec.dataset >>= start L cloud n m)
              g
              e
      accounted g (finished u) =
          >>=-Always (Always-mono (with_model awake) (mounted_model-Kept L law n n.spec.model))
      accounted g (halted x) = tt
      accounted g (panicked s) = tt

  reconcile_notebook-Kept : {h : History} → Always (Kept n) Any h (reconcile_notebook L cloud n)
  unfolding reconcile_notebook
  reconcile_notebook-Kept =
      if-Always (is_suspended n) (λ asleep. suspend-Kept L law n) (λ awake. resume-Kept awake)

  notebook_fetched-Kept : {h : History} → Always (Kept n) Any h (notebook_fetched L cloud (found n))
  unfolding notebook_fetched
  notebook_fetched-Kept =
      if-Always (get_image notebook n == "") (λ empty. stops tt)
        (λ built. >>=-Always (
          Only-Always (prepares-Kept L law n) configured
            (reconcile_params_config_map-Only L notebook n)))
    where
      configured :
          (g : History) (e : Outcome (Unit {0}))
          → Then (Kept n) Any (λ u. reconcile_notebook L cloud n) g e
      configured g (finished u) = reconcile_notebook-Kept
      configured g (halted x) = tt
      configured g (panicked s) = tt

-- In every run that reads the notebook `n`: its Pod is applied only if `n` is not suspended and after
-- the model and the dataset that `n` names were read and were ready, each saved status of a notebook
-- has a condition `Serving` that is true exactly if `Ready` is set, and `Ready` is set only if the Pod
-- that the API server showed last is ready.
pub notebook_runs-Kept :
    (L : Library)
    → SetsCondition L.set_status_condition
    → (cloud : Cloud) (e : Env) (key : Key) (n : Notebook) → e [] (get notebook key) ≡ found n
    → Each (Kept n) (run e [] (reconcile L cloud key)).0
unfolding reconcile
notebook_runs-Kept L law cloud e key n read =
    run-answered e (notebook_fetched L cloud) read tt (notebook_fetched-Kept L law cloud n)
