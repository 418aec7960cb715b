-- ===== src/Controller/Servers/Runs.antt =====
-- What every run of the Server controller keeps to.
use runbooks.Prelude.{◌≡◌, ◌==◌, [], ◌∷◌}
use runbooks.Kube.{Key, Deployment, Service}
use runbooks.Program.{
  found, patched, invalid, patch_error, get, get_deployment, Call, Answer, perform, ◌>>=◌, History,
  Env, Outcome, finished, halted, panicked, run,
}
use runbooks.Program.Always.{
  Always, done, ask, stops, Each, run-answered, >>=-Always, Always-mono, Then, or_fail-Always,
  if-Always,
}
use runbooks.Program.Only.{Only-Always, Only-keeps}
use runbooks.Library.{Library, SetsCondition}
use runbooks.Api.{model, server, Model, Server, get_image}
use runbooks.Cloud.{Cloud}
use runbooks.Controller.Status.{key_of}
use runbooks.Controller.Sorts.{reconcile_service_account-Only, reconcile_params_config_map-Only}
use runbooks.Controller.Needs.{ReadyNamed, ReadyNamed-later}
use runbooks.Controller.Servers.Objects.{server_deployment, server_service}
use runbooks.Controller.Servers.Reconcile.{
  served_model, report_deployment, apply_service, apply_deployment, serve, reconcile_server,
  server_fetched, reconcile,
}
use runbooks.Controller.Servers.Steps.{
  Kept, Any, prepares-Kept, ModelEnd, model_answer-Kept, report_deployment-Kept,
}

module _ (L : Library) (law : SetsCondition L.set_status_condition) (cloud : Cloud)
    (s : Server) where
  abbrev Read : History → Type 0
  Read = ReadyNamed model s.metadata.namespace s.spec.model.name

  later : (h : History) (c : Call) (a : Answer c) → Read h → Read ((c, a) ∷ h)
  later h c a = ReadyNamed-later model s.metadata.namespace s.spec.model.name c a h

  -- The two `Patch` calls keep the model read.
  abbrev ReadEnd : {A : Type 0} → History → Outcome A → Type 0
  ReadEnd h (finished x) = Read h
  ReadEnd h (halted e) = Unit
  ReadEnd h (panicked x) = Unit

  apply_service-Kept : {h : History} → Read h → Always (Kept s) ReadEnd h (apply_service L cloud s)
  unfolding apply_service
  apply_service-Kept {h} read = >>=-Always (
      or_fail-Always _ (server_service L cloud s)
        (λ service built. ask tt (elim [
          | patched p ↦ done (later h _ _ read)
          | invalid ↦ stops tt
          | patch_error e ↦ stops tt
        ]))
        (λ e. tt) (λ x. tt))

  apply_deployment-Kept :
      {h : History} (m : Model) → Read h → Always (Kept s) Any h (apply_deployment L cloud s m)
  unfolding apply_deployment
  apply_deployment-Kept m read = >>=-Always (
      or_fail-Always _ (server_deployment L cloud s m)
        (λ deploy built.
          ask read (elim [ patched p ↦ done tt | invalid ↦ stops tt | patch_error e ↦ stops tt ]))
        (λ e. tt) (λ x. tt))

  deployed :
      (h : History) (e : Outcome Deployment)
      → Any h e
      → Then
          (Kept s)
          Any
          (λ deploy. perform (get_deployment (key_of deploy.metadata)) >>= report_deployment L s)
          h
          e
  unfolding ◌>>=◌
  deployed h (finished deploy) any =
      ask tt (λ a. report_deployment-Kept L law s (key_of deploy.metadata) a)
  deployed h (halted e) any = tt
  deployed h (panicked x) any = tt

  serviced :
      (m : Model) (h : History) (e : Outcome Service)
      → ReadEnd h e
      → Then
          (Kept s)
          Any
          (λ service. apply_deployment L cloud s m >>= λ deploy.
            perform (get_deployment (key_of deploy.metadata)) >>= report_deployment L s)
          h
          e
  serviced m h (finished service) read =
      >>=-Always (Always-mono deployed (apply_deployment-Kept m read))
  serviced m h (halted e) read = tt
  serviced m h (panicked x) read = tt

  accounted :
      (m : Model) (h : History) (e : Outcome (Unit {0}))
      → Read h
      → Then
          (Kept s)
          Any
          (λ u. apply_service L cloud s >>= λ service. apply_deployment L cloud s m >>= λ deploy.
            perform (get_deployment (key_of deploy.metadata)) >>= report_deployment L s)
          h
          e
  accounted m h (finished u) read = >>=-Always (Always-mono (serviced m) (apply_service-Kept read))
  accounted m h (halted e) read = tt
  accounted m h (panicked x) read = tt

  served :
      (h : History) (e : Outcome Model)
      → ModelEnd L law s h e
      → Then (Kept s) Any (serve L cloud s) h e
  unfolding serve
  served h (finished m) read = >>=-Always (
      Only-keeps Read later (prepares-Kept L law s) (accounted m) read
        (reconcile_service_account-Only cloud _ _))
  served h (halted e) read = tt
  served h (panicked x) read = tt

  reconcile_server-Kept : {h : History} → Always (Kept s) Any h (reconcile_server L cloud s)
  unfolding reconcile_server served_model
  reconcile_server-Kept =
      ask tt (λ a. >>=-Always (Always-mono served (model_answer-Kept L law s a)))

  server_fetched-Kept : {h : History} → Always (Kept s) Any h (server_fetched L cloud (found s))
  unfolding server_fetched
  server_fetched-Kept =
      if-Always (get_image server s == "") (λ empty. stops tt)
        (λ built. >>=-Always (
          Only-Always (prepares-Kept L law s) configured
            (reconcile_params_config_map-Only L server s)))
    where
      configured :
          (g : History) (e : Outcome (Unit {0}))
          → Then (Kept s) Any (λ u. reconcile_server L cloud s) g e
      configured g (finished u) = reconcile_server-Kept
      configured g (halted x) = tt
      configured g (panicked x) = tt

-- In every run that reads the server `s`: its Deployment is applied only after the model that `s`
-- names was read and was ready, each saved status of a server has a condition `Serving` that is true
-- exactly if `Ready` is set, and `Ready` is set only if the Deployment that the API server showed
-- last has a ready replica.
pub server_runs-Kept :
    (L : Library)
    → SetsCondition L.set_status_condition
    → (cloud : Cloud) (e : Env) (key : Key) (s : Server) → e [] (get server key) ≡ found s
    → Each (Kept s) (run e [] (reconcile L cloud key)).0
unfolding reconcile
server_runs-Kept L law cloud e key s read =
    run-answered e (server_fetched L cloud) read tt (server_fetched-Kept L law cloud s)
