-- ===== src/Controller/Notebooks/Workspace.antt =====
-- `notebookPod` and `nbPodName`.
use runbooks.Prelude.{String, ◌<>◌, true, false, Option, none, some, List, [], ◌∷◌, snoc}
use runbooks.Kube.{Container, EnvVar, int, Pod, PodTemplate}
use runbooks.Program.{Go, ok}
use runbooks.Program.Fallible.{◌>>=◌}
use runbooks.Library.{Library}
use runbooks.Api.{model, dataset, notebook, Model, Dataset, Notebook, get_image}
use runbooks.Cloud.{Cloud}
use runbooks.Controller.Env.{resolve_env}
use runbooks.Controller.Params.{owner_of}
use runbooks.Controller.ServiceAccounts.{notebook_account}
use runbooks.Controller.Shared.{own}
use runbooks.Controller.Build.{plain_container}
use runbooks.Controller.Workload.{
  one_mount, template, with_params, with_resources, mount, mount_optional,
}

unfoldable pub pod_name : Notebook → String
pod_name n = n.metadata.name <> "-notebook"

unfoldable pub command_or_jupyter : Option (List String) → List String
command_or_jupyter (some command) = command
command_or_jupyter none =
    "jupyter" ∷ "lab" ∷ "--allow-root" ∷ "--ip=0.0.0.0" ∷ "--NotebookApp.token=$(NOTEBOOK_TOKEN)"
    ∷ "--notebook-dir=/content" ∷ []

unfoldable pub token : EnvVar
token = record { name = "NOTEBOOK_TOKEN"; value = "default"; value_from = none }

unfoldable pub notebook_container : Notebook → Container
unfolding command_or_jupyter token
notebook_container n = record (plain_container "notebook" (get_image notebook n)) {
  command = some (command_or_jupyter n.spec.command);
  ports = record { name = "notebook"; port = 8888 } ∷ [];
  env = snoc (resolve_env n.spec.env) token;
  readiness_probe = some (record { path = "/api"; port = int 8888 });
}

module _ (L : Library) (cloud : Cloud) where
  -- The template of the Pod: its annotations, labels and spec.
  unfoldable pub notebook_template : Notebook → Option Model → Option Dataset → Go PodTemplate
  unfolding notebook_container template with_params
  notebook_template n m data' = do
    params ← with_params "notebook" notebook n (
        template (notebook_container n) (("notebook", n.metadata.name) ∷ ("role", "run") ∷ [])
          notebook_account "" none)
    with_data ←
        mount_optional L cloud "mounting dataset"
          (one_mount "notebook" "dataset" "artifacts" "data" true) dataset data' params
    with_model ←
        mount_optional L cloud "mounting model"
          (one_mount "notebook" "model" "artifacts" "model" true) model m with_data
    mount L cloud "mounting notebook"
        (one_mount "notebook" "artifacts" "artifacts" "artifacts" false) notebook n with_model

  unfoldable pub notebook_pod : Notebook → Option Model → Option Dataset → Go Pod
  unfolding notebook_template with_resources pod_name
  notebook_pod n m data' = do
    mounted ← notebook_template n m data'
    owned ←
        own L "failed to set controller reference" (owner_of notebook n)
          (record (mounted.metadata) { name = pod_name n; namespace = n.metadata.namespace })
    pod ← with_resources "notebook" cloud n.spec.resources mounted
    ok (record { metadata = owned; spec = pod.spec; phase = ""; conditions = [] })
