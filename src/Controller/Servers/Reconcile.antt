-- ===== src/Controller/Servers/Reconcile.antt =====
-- `ServerReconciler.Reconcile` and `reconcileServer`.
use runbooks.Prelude.{eqb, String, ◌<>◌, ◌==◌, if◌then◌else◌, Bool, true, false}
use runbooks.Kube.{Key, Deployment, Service}
use runbooks.Program.{
  Fetch, found, missing, fetch_error, Patch, patched, invalid, patch_error, get, get_deployment,
  patch_deployment, patch_service, Program, ret, ◌>>=◌, ◌>>◌, perform, fail, stop, or_fail,
}
use runbooks.Library.{Library}
use runbooks.Api.{model, server, Model, Server, get_image}
use runbooks.Api.Reason
use runbooks.Cloud.{Cloud}
use runbooks.Controller.Status.{key_of}
use runbooks.Controller.Params.{reconcile_params_config_map}
use runbooks.Controller.ServiceAccounts.{model_server, reconcile_service_account}
use runbooks.Controller.Shared.{save_status, report}
use runbooks.Controller.Servers.Objects.{server_deployment, server_service}

-- The object as the server answers a `Patch`, of which no error is told apart.
abbrev pub applied : {A : Type 0} → String → Patch A → Program A
applied what (patched a) = ret a
applied what invalid = fail (what <> ": invalid")
applied what (patch_error e) = fail (what <> ": " <> e)

module _ (L : Library) where
  unfoldable pub not_serving : {A : Type 0} → Server → String → Program A
  unfolding ◌>>=◌
  not_serving s reason = do
    stored ←
        save_status "failed to update server status" server
          (report L server false Reason.serving false reason "" s)
    stop

  unfoldable pub model_answer : Server → Fetch Model → Program Model
  unfolding not_serving
  model_answer s (found m) = if m.status.ready then ret m else not_serving s Reason.model_not_ready
  model_answer s missing = not_serving s Reason.model_not_found
  model_answer s (fetch_error e) = fail ("getting model: " <> e)

  unfoldable pub served_model : Server → Program Model
  unfolding ◌>>=◌ model_answer
  served_model s = do
    answer ←
        perform (get model (record { name = s.spec.model.name; namespace = s.metadata.namespace }))
    model_answer s answer

  -- The status by the Deployment's ready replicas.
  abbrev pub after_replicas : Server → Bool → Server
  after_replicas s true =
      report L server false Reason.serving false Reason.deployment_not_ready "" s
  after_replicas s false = report L server true Reason.serving true Reason.deployment_ready "" s

  abbrev pub after_deployment : Server → Deployment → Server
  after_deployment s d = after_replicas s (eqb d.ready_replicas 0)

  unfoldable pub report_deployment : Server → Fetch Deployment → Program (Unit {0})
  unfolding ◌>>=◌
  report_deployment s (found d) = do
    stored ← save_status "failed to update model status" server (after_deployment s d)
    ret tt
  report_deployment s missing = fail "failed to get deployment: not found"
  report_deployment s (fetch_error e) = fail ("failed to get deployment: " <> e)

module _ (L : Library) (cloud : Cloud) where
  unfoldable pub apply_service : Server → Program Service
  unfolding ◌>>=◌
  apply_service s = do
    service ← or_fail "failed to construct service" (server_service L cloud s)
    answer ← perform (patch_service service)
    applied "failed to apply service" answer

  unfoldable pub apply_deployment : Server → Model → Program Deployment
  unfolding ◌>>=◌
  apply_deployment s m = do
    deploy ← or_fail "failed to construct deployment" (server_deployment L cloud s m)
    answer ← perform (patch_deployment deploy)
    applied "failed to apply deployment" answer

  -- From the model on, which is ready.
  unfoldable pub serve : Server → Model → Program (Unit {0})
  unfolding ◌>>=◌ apply_service apply_deployment
  serve s m = do
    reconcile_service_account cloud model_server m.metadata.namespace
    service ← apply_service s
    deploy ← apply_deployment s m
    answer ← perform (get_deployment (key_of deploy.metadata))
    report_deployment L s answer

  unfoldable pub reconcile_server : Server → Program (Unit {0})
  unfolding ◌>>=◌ serve
  reconcile_server s = do m ← served_model L s; serve s m

  unfoldable pub server_fetched : Fetch Server → Program (Unit {0})
  unfolding ◌>>=◌
  server_fetched (found s) =
      if get_image server s == ""
      then stop
      else reconcile_params_config_map L server s >> reconcile_server s
  server_fetched missing = stop
  server_fetched (fetch_error e) = fail e

  unfoldable pub reconcile : Key → Program (Unit {0})
  unfolding ◌>>=◌ server_fetched
  reconcile key = do answer ← perform (get server key); server_fetched answer
