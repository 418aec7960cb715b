-- ===== src/Controller/Servers/Arrives.antt =====
-- The Server controller in a cluster where the model is ready and the Deployment has a replica.
use runbooks.Prelude.{◌≡◌, refl, ◌==◌, true, false, eqb, []}
use runbooks.Kube.{Key, Deployment, Service}
use runbooks.Controller.Status.{key_of}
use runbooks.Program.{
  call, ok, found, patched, get, get_deployment, History, Env, Outcome, finished, run,
}
use runbooks.Program.Reaches.{
  Reaches, ends, step, then-Reaches, else-Reaches, run-Reaches, >>=-Reaches, or_fail-Reaches,
}
use runbooks.Library.{Library}
use runbooks.Api.{model, server, Model, Server, get_image}
use runbooks.Cloud.{Cloud}
use runbooks.Controller.Willing.{
  Willing, Serves, EndsReady, save_status-Reaches, account-Reaches, params-Reaches,
}
use runbooks.Controller.Servers.Objects.{server_service, server_deployment}
use runbooks.Controller.Servers.Reconcile.{
  model_answer, served_model, after_replicas, report_deployment, apply_service, apply_deployment,
  serve, reconcile_server, server_fetched, reconcile,
}

module _ (L : Library) {e : Env} (willing : Willing e) (s : Server) where
  -- A Deployment that has a ready replica.
  report_deployment-Reaches :
      {h : History} (d : Deployment)
      → eqb d.ready_replicas 0 ≡ false
      → Reaches e (EndsReady server) h (report_deployment L s (found d))
  unfolding report_deployment
  report_deployment-Reaches d some_ready = rw (some_ready) (
      >>=-Reaches (
        save_status-Reaches willing server _ (after_replicas L s false)
          (ends (after_replicas L s false, _, refl, refl))))

  served_model-Reaches :
      {Q : History → Outcome Model → Type 0} {h : History} (m : Model)
      → e h (get model (record { name = s.spec.model.name; namespace = s.metadata.namespace }))
        ≡ found m
      → m.status.ready ≡ true
      → ((g : History) → Q g (finished m))
      → Reaches e Q h (served_model L s)
  unfolding served_model model_answer
  served_model-Reaches m read ready next =
      step (found m) read (then-Reaches _ _ m.status.ready ready (ends (next _)))

  serve-Reaches :
      (cloud : Cloud)
      → Serves e
      → (m : Model) (v : Service) (d : Deployment) → server_service L cloud s ≡ ok v
      → server_deployment L cloud s m ≡ ok d
      → {h : History} → Reaches e (EndsReady server) h (serve L cloud s m)
  unfolding serve apply_service apply_deployment
  serve-Reaches cloud serves m v d service deploys = >>=-Reaches (
      account-Reaches willing
        (λ g. >>=-Reaches (
          >>=-Reaches (
            or_fail-Reaches _ _ v service (
              step (patched v) (willing.services _ v) (
                ends (
                  >>=-Reaches (
                    >>=-Reaches (
                      or_fail-Reaches _ _ d deploys
                        (step (patched d) (willing.deployments _ d) (ends (reads _)))))))))))
        cloud _ _)
    where
      reads :
          (g : History)
          → Reaches e
              (EndsReady server)
              g
              (call (get_deployment (key_of d.metadata)) (report_deployment L s))
      reads g =
          let (live, read, some_ready) = serves g (key_of d.metadata) in
          step (found live) read (report_deployment-Reaches live some_ready)

-- A server with an image and a kind becomes ready in one run if every write succeeds, its model is read
-- and is ready, its Service and its Deployment can be made, and every Deployment that is read has a
-- ready replica: the run finishes, and its last call saves the status with Ready set.
pub server_becomes_ready :
    (L : Library) (cloud : Cloud) (e : Env) (key : Key) (s : Server) (m : Model) (v : Service)
    (d : Deployment)
    → Willing e
    → Serves e
    → e [] (get server key) ≡ found s
    → (get_image server s == "") ≡ false
    → (s.kind == "") ≡ false
    → ((h : History)
        → e h (get model (record { name = s.spec.model.name; namespace = s.metadata.namespace }))
          ≡ found m)
    → m.status.ready ≡ true
    → server_service L cloud s ≡ ok v
    → server_deployment L cloud s m ≡ ok d
    → EndsReady server (run e [] (reconcile L cloud key)).0 (run e [] (reconcile L cloud key)).1
unfolding reconcile server_fetched reconcile_server
server_becomes_ready L cloud e key s m v d willing serves read built named model_read ready service
      deploys =
    run-Reaches (
      step {c = get server key} (found s) read (
        else-Reaches _ _ (get_image server s == "") built (
          >>=-Reaches (
            params-Reaches willing
              (λ g. >>=-Reaches (
                served_model-Reaches L willing s m (model_read g) ready
                  (λ g'. serve-Reaches L willing s cloud serves m v d service deploys)))
              L server s named))))
