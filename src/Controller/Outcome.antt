-- ===== src/Controller/Outcome.antt =====
-- What the Jobs and conditions that the reconcilers report on amount to.
use runbooks.Prelude.{String, ◌≡◌, refl, Bool, true, some, List, ◌∷◌, ◌∙◌}
use text.Mathlib.TextPositions.{eq_refl}
use runbooks.Kube.{Key, Condition, Job}
use runbooks.Program.{
  Fetch, found, missing, fetch_error, created, exists, create_error, get_job, create_job, Call,
  History, Outcome, finished,
}
use runbooks.Program.Always.{Always, done, ask}
use runbooks.Program.Latest.{latest_job}
use runbooks.Library.{Library, SetsCondition, find_condition}
use runbooks.Api.{
  Kind, model, dataset, server, notebook, Object, metadata, get_conditions, get_status_ready,
}
use runbooks.Controller.Status.{JobResult, job_result, fetched_job, reconcile_job, key_of}
use runbooks.Controller.Shared.{report}

-- The server showed the Job last, and showed it complete.
abbrev pub Completed : History → Type 0
Completed h = (j : Job) × (latest_job h ≡ some j) × ((job_result j.conditions).0 ≡ true)

-- The object has the condition, and it says what `Ready` says.
abbrev pub Agrees : (k : Kind) → String → Object k → Type 0
Agrees k type o =
    (c : Condition) × (find_condition type (get_conditions k o) ≡ some c)
    × (c.status ≡ get_status_ready k o)

abbrev pub JobEnd : History → Outcome JobResult → Type 0
JobEnd h (finished r) = r.success ≡ true → Completed h
JobEnd h _ = Unit

module _ {P : History → Call → Type 0} where
  -- A Job counts as a success only if the server showed it complete.
  pub fetched_job-Completed :
      {h : History} (key : Key) (a : Fetch Job)
      → Always P JobEnd ((get_job key, a) ∷ h) (fetched_job a)
  unfolding fetched_job
  fetched_job-Completed key (found j) = done (λ complete. (j, refl, complete))
  fetched_job-Completed key missing = done (λ e. cc)
  fetched_job-Completed key (fetch_error x) = done (λ e. cc)

  pub reconcile_job-Completed :
      {h : History} (j : Job)
      → P h (create_job j)
      → ((g : History) (key : Key) → P g (get_job key))
      → Always P JobEnd h (reconcile_job j)
  unfolding reconcile_job
  reconcile_job-Completed j may reads = ask may (elim [
    | created stored ↦ ask (reads _ _) (λ a. fetched_job-Completed (key_of stored.metadata) a)
    | exists ↦ ask (reads _ _) (λ a. fetched_job-Completed (key_of j.metadata) a)
    | create_error x ↦ done (λ e. cc)
  ])

module _ (L : Library) (law : SetsCondition L.set_status_condition) where
  -- The condition, as `report` sets it.
  abbrev reported : (k : Kind) → Object k → String → Bool → String → String → Condition
  reported k o type status reason message = record {
    type = type;
    status = status;
    reason = reason;
    observed_generation = (metadata k o).generation;
    message = message;
  }

  found_again :
      (cs : List Condition) (c : Condition)
      → find_condition c.type (L.set_status_condition cs c) ≡ some c
  found_again cs c = law cs c c.type ∙ rw (eq_refl c.type)

  -- A report leaves the condition and `Ready` in agreement.
  pub report-Agrees :
      (k : Kind) (ready : Bool) (type reason message : String) (o : Object k)
      → Agrees k type (report L k ready type ready reason message o)
  report-Agrees model ready type reason message o =
      (reported model o type ready reason message, found_again _ _, refl)
  report-Agrees dataset ready type reason message o =
      (reported dataset o type ready reason message, found_again _ _, refl)
  report-Agrees server ready type reason message o =
      (reported server o type ready reason message, found_again _ _, refl)
  report-Agrees notebook ready type reason message o =
      (reported notebook o type ready reason message, found_again _ _, refl)
