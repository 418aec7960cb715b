-- ===== src/Controller/Models/Steps.antt =====
-- What each step of the Model controller keeps to.
use runbooks.Prelude.{String, ◌≡◌, refl, Bool, true, false, Option, none, some, ◌∷◌}
use mathlib.Core.List.{Memᴰ}
use runbooks.Program.{
  Fetch, found, missing, fetch_error, get, create_job, update_status, Call, History, Outcome,
  finished, halted, panicked,
}
use runbooks.Program.Always.{Always, done, ask, stops, >>=-Always, Then, if-Always}
use runbooks.Program.Only.{prepares}
use runbooks.Library.{Library, SetsCondition}
use runbooks.Api.{ObjectRef, model, dataset, Model, Dataset}
use runbooks.Api.Reason
use runbooks.Controller.Status.{JobResult}
use runbooks.Controller.Sorts.{save_status-Always}
use runbooks.Controller.Outcome.{Completed, Agrees, JobEnd, report-Agrees}
use runbooks.Controller.Needs.{ReadyRef, ReadyRef-later}
use runbooks.Controller.Models.Reconcile.{
  not_complete, base_answer, base_model, dataset_answer, training_dataset, after_job, report_job,
}

abbrev pub Truthful : Model → History → Type 0
Truthful m h = Agrees model "Complete" m × (m.status.ready ≡ true → Completed h)

-- A Job is created only when the base model and the dataset of the spec have been read and were
-- ready; a status is saved only if its condition `Complete` says what `Ready` says, and `Ready` only
-- if the Job last seen is complete.
abbrev pub Kept : Model → History → Call → Type 0
Kept m h (create_job j) =
    ReadyRef model m.metadata.namespace m.spec.model h
    × ReadyRef dataset m.metadata.namespace m.spec.dataset h
Kept m h (update_status model n) = Truthful n h
Kept m h _ = Unit

abbrev pub Any : {A : Type 0} → History → Outcome A → Type 0
Any h o = Unit {0}

module _ (L : Library) (law : SetsCondition L.set_status_condition) (m : Model) where
  pub prepares-Kept : (h : History) (c : Call) → prepares c ≡ true → Kept m h c
  prepares-Kept h (create_job j) p = cc
  prepares-Kept h (update_status model n) p = cc
  prepares-Kept h _ p = tt

  abbrev pub BaseEnd : Option ObjectRef → History → Outcome (Option Model) → Type 0
  BaseEnd ref h (finished b) = ReadyRef model m.metadata.namespace ref h
  BaseEnd ref h (halted e) = Unit
  BaseEnd ref h (panicked s) = Unit

  abbrev pub DataEnd : Option ObjectRef → History → Outcome (Option Dataset) → Type 0
  DataEnd ref h (finished b) =
      ReadyRef model m.metadata.namespace m.spec.model h
      × ReadyRef dataset m.metadata.namespace ref h
  DataEnd ref h (halted e) = Unit
  DataEnd ref h (panicked s) = Unit

  not_complete-Kept :
      {A : Type 0} {Q : History → Outcome A → Type 0} {h : History} (reason : String)
      → ((g : History) (e : Option String) → Q g (halted e))
      → Always (Kept m) Q h (not_complete L m reason)
  unfolding not_complete
  not_complete-Kept reason ends = >>=-Always (
      save_status-Always model _ _ (report-Agrees L law model false "Complete" reason "" m, λ e. cc)
        (λ stored. stops (ends _ _)) (λ g e. ends _ _))

  base_answer-Kept :
      {h : History} (ref : ObjectRef) (a : Fetch Model)
      → Always
          (Kept m)
          (BaseEnd (some ref))
          ((get model (record { namespace = m.metadata.namespace; name = ref.name }), a) ∷ h)
          (base_answer L m a)
  unfolding base_answer
  base_answer-Kept ref (found b) =
      if-Always (b.status.ready) (λ ready. done (b, Memᴰ.head refl, ready))
        (λ other. not_complete-Kept Reason.base_model_not_ready (λ g e. tt))
  base_answer-Kept ref missing = not_complete-Kept Reason.base_model_not_found (λ g e. tt)
  base_answer-Kept ref (fetch_error e) = stops tt

  pub base_model-Kept :
      {h : History} (ref : Option ObjectRef) → Always (Kept m) (BaseEnd ref) h (base_model L m ref)
  unfolding base_model
  base_model-Kept none = done tt
  base_model-Kept (some ref) = ask tt (λ a. base_answer-Kept ref a)

  dataset_answer-Kept :
      {h : History} (ref : ObjectRef) (a : Fetch Dataset)
      → ReadyRef model m.metadata.namespace m.spec.model h
      → Always
          (Kept m)
          (DataEnd (some ref))
          ((get dataset (record { namespace = m.metadata.namespace; name = ref.name }), a) ∷ h)
          (dataset_answer L m a)
  unfolding dataset_answer
  dataset_answer-Kept {h} ref (found d) base =
      if-Always (d.status.ready)
        (λ ready. done (
          ReadyRef-later model m.metadata.namespace m.spec.model _ _ h base,
          (d, Memᴰ.head refl, ready),
        ))
        (λ other. not_complete-Kept Reason.dataset_not_ready (λ g e. tt))
  dataset_answer-Kept ref missing base = not_complete-Kept Reason.dataset_not_found (λ g e. tt)
  dataset_answer-Kept ref (fetch_error e) base = stops tt

  pub training_dataset-Kept :
      {h : History} (ref : Option ObjectRef)
      → ReadyRef model m.metadata.namespace m.spec.model h
      → Always (Kept m) (DataEnd ref) h (training_dataset L m ref)
  unfolding training_dataset
  training_dataset-Kept none base = done (base, tt)
  training_dataset-Kept (some ref) base = ask tt (λ a. dataset_answer-Kept ref a base)

  after_job-Truthful :
      (h : History) (success failure : Bool)
      → (success ≡ true → Completed h)
      → Truthful (after_job L m success failure) h
  after_job-Truthful h true failure complete =
      (report-Agrees L law model true "Complete" _ _ m, complete)
  after_job-Truthful h false false complete =
      (report-Agrees L law model false "Complete" _ _ m, λ e. cc)
  after_job-Truthful h false true complete =
      (report-Agrees L law model false "Complete" _ _ m, λ e. cc)

  pub reported :
      (h : History) (e : Outcome JobResult) → JobEnd h e → Then (Kept m) Any (report_job L m) h e
  unfolding report_job
  reported h (finished r) complete = >>=-Always (
      save_status-Always model _ _ (after_job-Truthful h r.success r.failure complete)
        (λ stored. if-Always (r.success) (λ y. done tt) (λ n. stops tt)) (λ g e. tt))
  reported h (halted e) complete = tt
  reported h (panicked s) complete = tt
