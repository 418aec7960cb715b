-- ===== src/Controller/Notebooks/Steps.antt =====
-- What the steps of the Notebook controller keep to.
use runbooks.Prelude.{String, ◌≡◌, refl, ◌==◌, Bool, true, false, Option, none, some, ◌∷◌}
use mathlib.Core.List.{Memᴰ}
use runbooks.Kube.{Pod}
use runbooks.Program.{
  Fetch, found, missing, fetch_error, deleted, gone, delete_error, get, patch_pod, update_status,
  Call, History, Outcome, finished, halted, panicked,
}
use runbooks.Program.Always.{Always, done, ask, stops, >>=-Always, Then, if-Always}
use runbooks.Program.Only.{prepares}
use runbooks.Program.Latest.{latest_pod}
use runbooks.Library.{Library, SetsCondition}
use runbooks.Api.{ObjectRef, model, dataset, notebook, Model, Dataset, Notebook, is_suspended}
use runbooks.Api.Reason
use runbooks.Controller.Status.{is_pod_ready}
use runbooks.Controller.Sorts.{save_status-Always}
use runbooks.Controller.Outcome.{Agrees, report-Agrees}
use runbooks.Controller.Needs.{ReadyIfNamed, ReadyIfNamed-later}
use runbooks.Controller.Notebooks.Reconcile.{
  not_serving, suspend, model_answer, mounted_model, dataset_answer, mounted_dataset, after_pod,
  report_pod,
}

-- The API server showed the Pod last, and showed it ready.
abbrev pub Running : History → Type 0
Running h = (p : Pod) × (latest_pod h ≡ some p) × (is_pod_ready p ≡ true)

-- A Pod is applied only for a notebook that is not suspended, and when the model and the dataset that
-- its spec names have been read and were ready; a status is saved only if its condition `Serving` says
-- what `Ready` says, and `Ready` only if the Pod last seen is ready.
abbrev pub Kept : Notebook → History → Call → Type 0
Kept n h (patch_pod p) =
    (is_suspended n ≡ false)
    × ReadyIfNamed model n.metadata.namespace n.spec.model h
    × ReadyIfNamed dataset n.metadata.namespace n.spec.dataset h
Kept n h (update_status notebook o) =
    Agrees notebook "Serving" o × (o.status.ready ≡ true → Running h)
Kept n h _ = Unit

abbrev pub Any : {A : Type 0} → History → Outcome A → Type 0
Any h o = Unit {0}

module _ (L : Library) (law : SetsCondition L.set_status_condition) (n : Notebook) where
  pub prepares-Kept : (h : History) (c : Call) → prepares c ≡ true → Kept n h c
  prepares-Kept h (patch_pod q) p = cc
  prepares-Kept h (update_status notebook o) p = cc
  prepares-Kept h _ p = tt

  abbrev pub ModelEnd : Option ObjectRef → History → Outcome (Option Model) → Type 0
  ModelEnd ref h (finished m) = ReadyIfNamed model n.metadata.namespace ref h
  ModelEnd ref h (halted e) = Unit
  ModelEnd ref h (panicked s) = Unit

  abbrev pub DataEnd : Option ObjectRef → History → Outcome (Option Dataset) → Type 0
  DataEnd ref h (finished d) =
      ReadyIfNamed model n.metadata.namespace n.spec.model h
      × ReadyIfNamed dataset n.metadata.namespace ref h
  DataEnd ref h (halted e) = Unit
  DataEnd ref h (panicked s) = Unit

  pub not_serving-Kept :
      {A : Type 0} {Q : History → Outcome A → Type 0} {h : History} (reason : String)
      → ((g : History) (e : Option String) → Q g (halted e))
      → Always (Kept n) Q h (not_serving L n reason)
  unfolding not_serving
  not_serving-Kept reason ends = >>=-Always (
      save_status-Always notebook _ _
        (report-Agrees L law notebook false "Serving" reason "" n, λ e. cc)
        (λ stored. stops (ends _ _)) (λ g e. ends _ _))

  pub suspend-Kept : {h : History} → Always (Kept n) Any h (suspend L n)
  unfolding suspend
  suspend-Kept = >>=-Always (
      save_status-Always notebook _ _
        (report-Agrees L law notebook false "Serving" Reason.suspended "" n, λ e. cc)
        (λ stored.
          ask tt (elim [ deleted ↦ stops tt | gone ↦ stops tt | delete_error e ↦ stops tt ]))
        (λ g e. tt))

  pub model_answer-Kept :
      {h : History} (ref : ObjectRef) (a : Fetch Model)
      → Always
          (Kept n)
          (ModelEnd (some ref))
          ((get model (record { name = ref.name; namespace = n.metadata.namespace }), a) ∷ h)
          (model_answer L n a)
  unfolding model_answer
  model_answer-Kept ref (found m) =
      if-Always (m.status.ready) (λ ready. done (λ named. (m, Memᴰ.head refl, ready)))
        (λ other. not_serving-Kept Reason.model_not_ready (λ g e. tt))
  model_answer-Kept ref missing = not_serving-Kept Reason.model_not_found (λ g e. tt)
  model_answer-Kept ref (fetch_error e) = stops tt

  pub mounted_model-Kept :
      {h : History} (ref : Option ObjectRef)
      → Always (Kept n) (ModelEnd ref) h (mounted_model L n ref)
  unfolding mounted_model
  mounted_model-Kept none = done tt
  mounted_model-Kept (some ref) =
      if-Always (ref.name == "") (λ empty. done (λ named. cc))
        (λ named. ask tt (λ a. model_answer-Kept ref a))

  pub dataset_answer-Kept :
      {h : History} (ref : ObjectRef) (a : Fetch Dataset)
      → ReadyIfNamed model n.metadata.namespace n.spec.model h
      → Always
          (Kept n)
          (DataEnd (some ref))
          ((get dataset (record { name = ref.name; namespace = n.metadata.namespace }), a) ∷ h)
          (dataset_answer L n a)
  unfolding dataset_answer
  dataset_answer-Kept {h} ref (found d) m_ready =
      if-Always (d.status.ready)
        (λ ready. done (
          ReadyIfNamed-later model n.metadata.namespace n.spec.model _ _ h m_ready,
          λ named. (d, Memᴰ.head refl, ready),
        ))
        (λ other. not_serving-Kept Reason.dataset_not_ready (λ g e. tt))
  dataset_answer-Kept ref missing m_ready = not_serving-Kept Reason.dataset_not_found (λ g e. tt)
  dataset_answer-Kept ref (fetch_error e) m_ready = stops tt

  pub mounted_dataset-Kept :
      {h : History} (ref : Option ObjectRef)
      → ReadyIfNamed model n.metadata.namespace n.spec.model h
      → Always (Kept n) (DataEnd ref) h (mounted_dataset L n ref)
  unfolding mounted_dataset
  mounted_dataset-Kept none m_ready = done (m_ready, tt)
  mounted_dataset-Kept (some ref) m_ready =
      if-Always (ref.name == "") (λ empty. done (m_ready, λ named. cc))
        (λ named. ask tt (λ a. dataset_answer-Kept ref a m_ready))

  pub after_pod-Kept :
      (h : History) (ready : Bool)
      → (ready ≡ true → Running h)
      → Agrees notebook "Serving" (after_pod L n ready)
        × ((after_pod L n ready).status.ready ≡ true → Running h)
  after_pod-Kept h true running = (report-Agrees L law notebook true "Serving" _ _ n, running)
  after_pod-Kept h false running = (report-Agrees L law notebook false "Serving" _ _ n, λ e. cc)

  -- The Pod at hand is the one that the server showed last.
  abbrev pub PodEnd : History → Outcome Pod → Type 0
  PodEnd h (finished p) = latest_pod h ≡ some p
  PodEnd h (halted e) = Unit
  PodEnd h (panicked s) = Unit

  pub reported :
      (h : History) (e : Outcome Pod) → PodEnd h e → Then (Kept n) Any (report_pod L n) h e
  unfolding report_pod
  reported h (finished p) seen = >>=-Always (
      save_status-Always notebook _ _
        (after_pod-Kept h (is_pod_ready p) (λ ready. (p, seen, ready))) (λ stored. done tt)
        (λ g e. tt))
  reported h (halted e) seen = tt
  reported h (panicked s) seen = tt
