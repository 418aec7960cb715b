-- ===== src/Controller/Servers/Steps.antt =====
-- What each step of the Server controller keeps to.
use runbooks.Prelude.{◌<◌, String, ◌≡◌, refl, Bool, true, false, some, ◌∷◌, eqb, arith}
use mathlib.Core.List.{Memᴰ}
use runbooks.Kube.{Key, Deployment}
use runbooks.Program.{
  Fetch, found, missing, fetch_error, get, get_deployment, patch_deployment, update_status, Call,
  History, Outcome, finished, halted, panicked,
}
use runbooks.Program.Always.{Always, done, stops, >>=-Always, if-Always}
use runbooks.Program.Only.{prepares}
use runbooks.Program.Latest.{latest_deployment}
use runbooks.Library.{Library, SetsCondition}
use runbooks.Api.{model, server, Model, Server}
use runbooks.Api.Reason
use runbooks.Controller.Sorts.{save_status-Always}
use runbooks.Controller.Outcome.{Agrees, report-Agrees}
use runbooks.Controller.Needs.{ReadyNamed}
use runbooks.Controller.Servers.Reconcile.{
  not_serving, model_answer, after_replicas, report_deployment,
}

-- The server showed the Deployment last, with a ready replica.
abbrev pub Replicated : History → Type 0
Replicated h = (d : Deployment) × (latest_deployment h ≡ some d) × (0 < d.ready_replicas)

-- A Deployment is applied only when the model of the spec has been read and was ready; a status is
-- saved only if its condition `Serving` says what `Ready` says, and `Ready` only if the Deployment
-- last seen has a ready replica.
abbrev pub Kept : Server → History → Call → Type 0
Kept s h (patch_deployment d) = ReadyNamed model s.metadata.namespace s.spec.model.name h
Kept s h (update_status server t) =
    Agrees server "Serving" t × (t.status.ready ≡ true → Replicated h)
Kept s h _ = Unit

abbrev pub Any : {A : Type 0} → History → Outcome A → Type 0
Any h o = Unit {0}

module _ (L : Library) (law : SetsCondition L.set_status_condition) (s : Server) where
  pub prepares-Kept : (h : History) (c : Call) → prepares c ≡ true → Kept s h c
  prepares-Kept h (patch_deployment d) p = cc
  prepares-Kept h (update_status server t) p = cc
  prepares-Kept h _ p = tt

  abbrev pub ModelEnd : History → Outcome Model → Type 0
  ModelEnd h (finished m) = ReadyNamed model s.metadata.namespace s.spec.model.name h
  ModelEnd h (halted e) = Unit
  ModelEnd h (panicked x) = Unit

  not_serving-Kept :
      {h : History} (reason : String) → Always (Kept s) ModelEnd h (not_serving L s reason)
  unfolding not_serving
  not_serving-Kept reason = >>=-Always (
      save_status-Always server _ _
        (report-Agrees L law server false "Serving" reason "" s, λ e. cc) (λ stored. stops tt)
        (λ g e. tt))

  pub model_answer-Kept :
      {h : History} (a : Fetch Model)
      → Always
          (Kept s)
          ModelEnd
          ((get model (record { name = s.spec.model.name; namespace = s.metadata.namespace }), a)
            ∷ h)
          (model_answer L s a)
  unfolding model_answer
  model_answer-Kept (found m) =
      if-Always (m.status.ready) (λ ready. done (m, Memᴰ.head refl, ready))
        (λ other. not_serving-Kept Reason.model_not_ready)
  model_answer-Kept missing = not_serving-Kept Reason.model_not_found
  model_answer-Kept (fetch_error e) = stops tt

  after_replicas-Kept :
      (h : History) (d : Deployment) (empty : Bool)
      → latest_deployment h ≡ some d
      → eqb d.ready_replicas 0 ≡ empty
      → Agrees server "Serving" (after_replicas L s empty)
        × ((after_replicas L s empty).status.ready ≡ true → Replicated h)
  after_replicas-Kept h d true seen none_ready =
      (report-Agrees L law server false "Serving" _ _ s, λ e. cc)
  after_replicas-Kept h d false seen some_ready =
      (report-Agrees L law server true "Serving" _ _ s, λ e. (d, seen, ground arith))

  pub report_deployment-Kept :
      {h : History} (key : Key) (a : Fetch Deployment)
      → Always (Kept s) Any ((get_deployment key, a) ∷ h) (report_deployment L s a)
  unfolding report_deployment
  report_deployment-Kept {h} key (found d) = >>=-Always (
      save_status-Always server _ _
        (after_replicas-Kept ((get_deployment key, found d) ∷ h) d _ refl refl) (λ stored. done tt)
        (λ g e. tt))
  report_deployment-Kept key missing = stops tt
  report_deployment-Kept key (fetch_error e) = stops tt
