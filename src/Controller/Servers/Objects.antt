-- ===== src/Controller/Servers/Objects.antt =====
-- `serverDeployment`, `serverService` and `withServerSelector`.
use runbooks.Prelude.{String, ◌<>◌, true, none, some, [], ◌∷◌}
use runbooks.Prelude.Dict.{Dict, insert}
use runbooks.Kube.{Container, str, Deployment, Service, PodTemplate}
use runbooks.Program.{Go, ok}
use runbooks.Program.Fallible.{◌>>=◌}
use runbooks.Library.{Library}
use runbooks.Api.{model, server, Model, Server, get_image}
use runbooks.Cloud.{Cloud}
use runbooks.Controller.Env.{resolve_env}
use runbooks.Controller.Params.{fresh_meta, owner_of}
use runbooks.Controller.ServiceAccounts.{model_server}
use runbooks.Controller.Shared.{own}
use runbooks.Controller.Build.{plain_container}
use runbooks.Controller.Workload.{one_mount, template, with_params, with_resources, mount}

abbrev pub http_serve_port_name : String
http_serve_port_name = "http-serve"

unfoldable pub with_server_selector : Server → Dict String → Dict String
with_server_selector s labels = insert "server" s.metadata.name (insert "role" "run" labels)

abbrev pub server_object_name : Server → String
server_object_name s = s.metadata.name <> "-server"

unfoldable pub serve_container : Server → Container
serve_container s = record (plain_container "serve" (get_image server s)) {
  image_pull_policy = "Always";
  command = s.spec.command;
  env = resolve_env s.spec.env;
  ports = record { name = http_serve_port_name; port = 8080 } ∷ [];
  readiness_probe = some (record { path = "/"; port = str http_serve_port_name });
}

module _ (L : Library) (cloud : Cloud) where
  unfoldable pub serve_template : Server → Model → Go PodTemplate
  unfolding serve_container template with_params with_server_selector
  serve_template s m = do
    params ←
        with_params "serve" server s
          (template (serve_container s) (with_server_selector s []) model_server "" none)
    mount L cloud "mounting model" (one_mount "serve" "model" "artifacts" "model" true) model m
        params

  unfoldable pub server_deployment : Server → Model → Go Deployment
  unfolding serve_template with_resources
  server_deployment s m = do
    mounted ← serve_template s m
    owned ←
        own L "failed to set controller reference" (owner_of server s)
          (fresh_meta (server_object_name s) s.metadata.namespace)
    pod ← with_resources "serve" cloud s.spec.resources mounted
    ok (record {
      metadata = owned;
      replicas = 1;
      selector = ("server", s.metadata.name) ∷ [];
      template = pod;
      ready_replicas = 0;
    })

  unfoldable pub server_service : Server → Go Service
  unfolding with_server_selector
  server_service s = do
    owned ←
        own L "failed to set controller reference" (owner_of server s)
          (fresh_meta (server_object_name s) s.metadata.namespace)
    ok (record {
      metadata = owned;
      selector = with_server_selector s [];
      ports =
          record {
            name = "http";
            protocol = "TCP";
            port = 8080;
            target_port = str http_serve_port_name;
          }
          ∷ [];
    })
