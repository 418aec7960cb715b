-- ===== src/Controller/Notebooks/Arrives.antt =====
-- The Notebook controller in a cluster where every write succeeds: a notebook whose needs are met, and
-- a suspended one.
use runbooks.Prelude.{String, ◌≡◌, refl, ◌==◌, true, false, Option, none, some, [], ◌∷◌}
use runbooks.Kube.{Key, Pod}
use runbooks.Program.{
  ok, found, patched, deleted, written, get, get_pod, delete_pod, update_status, History, Env,
  Outcome, finished, halted, panicked, run, call,
}
use runbooks.Program.Reaches.{
  Reaches, ends, halts, step, then-Reaches, else-Reaches, run-Reaches, >>=-Reaches, or_fail-Reaches,
}
use runbooks.Library.{Library}
use runbooks.Api.{
  Kind, Object, model, dataset, notebook, Model, Dataset, Notebook, ObjectRef, get_image,
  is_suspended,
}
use runbooks.Cloud.{Cloud}
use runbooks.Controller.Status.{key_of, is_pod_ready}
use runbooks.Controller.Willing.{
  Willing, PodsReady, EndsReady, Available, save_status-Reaches, account-Reaches, params-Reaches,
}
use runbooks.Controller.Notebooks.Workspace.{pod_name, notebook_pod}
use runbooks.Controller.Notebooks.Reconcile.{
  after_suspend, after_patch, after_get, suspend, model_answer, mounted_model, dataset_answer,
  mounted_dataset, after_pod, report_pod, apply_pod, start, resume, reconcile_notebook,
  notebook_fetched, reconcile,
}

-- The object that a reference names, if it names one: it is ready, and found whenever it is read.
abbrev pub Mounts : Env → (k : Kind) → String → Option ObjectRef → Option (Object k) → Type 0
Mounts e k namespace none none = Unit
Mounts e k namespace (some ref) none = (ref.name == "") ≡ true
Mounts e k namespace (some ref) (some o) =
    ((ref.name == "") ≡ false) × Available e k namespace (some ref) (some o)
Mounts e k namespace none (some o) = ⊥

module _ (L : Library) {e : Env} (willing : Willing e) (n : Notebook) where
  mounted_model-Reaches :
      {Q : History → Outcome (Option Model) → Type 0} {h : History} (r : Option ObjectRef)
      (m : Option Model)
      → Mounts e model n.metadata.namespace r m
      → ((g : History) → Q g (finished m))
      → Reaches e Q h (mounted_model L n r)
  unfolding mounted_model model_answer
  mounted_model-Reaches none (some m) there next = absurd there
  mounted_model-Reaches none none there next = ends (next _)
  mounted_model-Reaches (some ref) none empty next =
      then-Reaches _ _ (ref.name == "") empty (ends (next _))
  mounted_model-Reaches (some ref) (some m) (named, (ready, read)) next =
      else-Reaches _ _ (ref.name == "") named
        (step (found m) (read _) (then-Reaches _ _ m.status.ready ready (ends (next _))))

  mounted_dataset-Reaches :
      {Q : History → Outcome (Option Dataset) → Type 0} {h : History} (r : Option ObjectRef)
      (d : Option Dataset)
      → Mounts e dataset n.metadata.namespace r d
      → ((g : History) → Q g (finished d))
      → Reaches e Q h (mounted_dataset L n r)
  unfolding mounted_dataset dataset_answer
  mounted_dataset-Reaches none (some d) there next = absurd there
  mounted_dataset-Reaches none none there next = ends (next _)
  mounted_dataset-Reaches (some ref) none empty next =
      then-Reaches _ _ (ref.name == "") empty (ends (next _))
  mounted_dataset-Reaches (some ref) (some d) (named, (ready, read)) next =
      else-Reaches _ _ (ref.name == "") named
        (step (found d) (read _) (then-Reaches _ _ d.status.ready ready (ends (next _))))

  report_pod-Reaches :
      {h : History} (p : Pod)
      → is_pod_ready p ≡ true
      → Reaches e (EndsReady notebook) h (report_pod L n p)
  unfolding report_pod
  report_pod-Reaches p ready = rw (ready) (
      >>=-Reaches (
        save_status-Reaches willing notebook _ (after_pod L n true)
          (ends (after_pod L n true, _, refl, refl))))

  apply_pod-Reaches :
      (cloud : Cloud)
      → PodsReady e
      → {Q : History → Outcome Pod → Type 0} {h : History} (p : Pod)
      → ((g : History) (q : Pod) → is_pod_ready q ≡ true → Q g (finished q))
      → Reaches e Q h (apply_pod L cloud p)
  unfolding apply_pod after_patch after_get
  apply_pod-Reaches cloud pods {Q = Q} p next = step (patched p) (willing.pods _ p) (reads _)
    where
      reads : (g : History) → Reaches e Q g (call (get_pod (key_of p.metadata)) (after_get p))
      reads g =
          let (q, read, ready) = pods g (key_of p.metadata) in
          step (found q) read (ends (next _ q ready))

  start-Reaches :
      (cloud : Cloud)
      → PodsReady e
      → (m : Option Model) (d : Option Dataset) (p : Pod) → notebook_pod L cloud n m d ≡ ok p
      → {h : History} → Reaches e (EndsReady notebook) h (start L cloud n m d)
  unfolding start
  start-Reaches cloud pods m d p made = >>=-Reaches (
      or_fail-Reaches _ _ p made
        (>>=-Reaches (apply_pod-Reaches cloud pods p (λ g q ready. report_pod-Reaches q ready))))

  resume-Reaches :
      (cloud : Cloud)
      → PodsReady e
      → (m : Option Model) (d : Option Dataset) (p : Pod)
      → Mounts e model n.metadata.namespace n.spec.model m
      → Mounts e dataset n.metadata.namespace n.spec.dataset d
      → notebook_pod L cloud n m d ≡ ok p
      → {h : History} → Reaches e (EndsReady notebook) h (resume L cloud n)
  unfolding resume
  resume-Reaches cloud pods m d p model_there data_there made = >>=-Reaches (
      account-Reaches willing
        (λ g. >>=-Reaches (
          mounted_model-Reaches n.spec.model m model_there (λ g'. >>=-Reaches (
            mounted_dataset-Reaches n.spec.dataset d data_there
              (λ g''. start-Reaches cloud pods m d p made)))))
        cloud _ _)

-- A notebook that is not suspended and has an image and a kind becomes ready in one run if every write
-- succeeds, the model and the dataset that it names are there and ready, its Pod can be made, and every
-- Pod that is read is ready: the run finishes, and its last call saves the status with Ready set.
pub notebook_becomes_ready :
    (L : Library) (cloud : Cloud) (e : Env) (key : Key) (n : Notebook) (m : Option Model)
    (d : Option Dataset) (p : Pod)
    → Willing e
    → PodsReady e
    → e [] (get notebook key) ≡ found n
    → is_suspended n ≡ false
    → (get_image notebook n == "") ≡ false
    → (n.kind == "") ≡ false
    → Mounts e model n.metadata.namespace n.spec.model m
    → Mounts e dataset n.metadata.namespace n.spec.dataset d
    → notebook_pod L cloud n m d ≡ ok p
    → EndsReady notebook (run e [] (reconcile L cloud key)).0 (run e [] (reconcile L cloud key)).1
unfolding reconcile notebook_fetched reconcile_notebook
notebook_becomes_ready L cloud e key n m d p willing pods read awake built named model_there
      data_there made =
    run-Reaches (
      step {c = get notebook key} (found n) read (
        else-Reaches _ _ (get_image notebook n == "") built (
          >>=-Reaches (
            params-Reaches willing
              (λ g.
                else-Reaches _ _ (is_suspended n) awake
                  (resume-Reaches L willing n cloud pods m d p model_there data_there made))
              L notebook n named))))

-- The run stopped without an error, after a status without `Ready` was saved and the Pod was deleted.
abbrev pub Stopped : Notebook → {A : Type 0} → History → Outcome A → Type 0
Stopped n h (finished a) = ⊥
Stopped n h (halted none) =
    (o : Notebook) × (g : History) × (h
      ≡ (delete_pod (record { name = pod_name n; namespace = n.metadata.namespace }), deleted)
        ∷ (update_status notebook o, written o)
        ∷ g)
    × (o.status.ready ≡ false)
Stopped n h (halted (some x)) = ⊥
Stopped n h (panicked s) = ⊥

-- A suspended notebook with an image and a kind is stopped in one run if every write succeeds: the
-- last two calls save a status without Ready and delete the notebook's Pod, and the run stops without
-- an error.
pub suspended_notebook_stops :
    (L : Library) (cloud : Cloud) (e : Env) (key : Key) (n : Notebook)
    → Willing e
    → e [] (get notebook key) ≡ found n
    → is_suspended n ≡ true
    → (get_image notebook n == "") ≡ false
    → (n.kind == "") ≡ false
    → Stopped n (run e [] (reconcile L cloud key)).0 (run e [] (reconcile L cloud key)).1
unfolding reconcile notebook_fetched reconcile_notebook suspend after_suspend pod_name
suspended_notebook_stops L cloud e key n willing read asleep built named =
    run-Reaches {Q = Stopped n} (
      step {c = get notebook key} (found n) read (
        else-Reaches _ _ (get_image notebook n == "") built (
          >>=-Reaches (
            params-Reaches willing
              (λ g. then-Reaches _ _ (is_suspended n) asleep (
                >>=-Reaches (
                  save_status-Reaches willing notebook _ _
                    (step deleted (willing.pods_deleted _ _) (halts (_, _, refl, refl))))))
              L notebook n named))))
