-- ===== src/Controller/Datasets/Job.antt =====
-- `loadJob`
use runbooks.Prelude.{◌<>◌, false, [], ◌∷◌}
use runbooks.Kube.{Container, Job, PodTemplate}
use runbooks.Program.{Go, ok}
use runbooks.Program.Fallible.{◌>>=◌}
use runbooks.Library.{Library}
use runbooks.Api.{dataset, Dataset, get_image}
use runbooks.Cloud.{Cloud}
use runbooks.Controller.Env.{resolve_env}
use runbooks.Controller.Params.{fresh_meta, owner_of}
use runbooks.Controller.ServiceAccounts.{data_loader}
use runbooks.Controller.Shared.{own}
use runbooks.Controller.Build.{plain_container}
use runbooks.Controller.Workload.{
  one_mount, template, group_3003, with_params, with_resources, mount,
}

unfoldable pub load_container : Dataset → Container
load_container d = record (plain_container "load" (get_image dataset d)) {
  command = d.spec.command;
  env = resolve_env d.spec.env;
}

module _ (L : Library) (cloud : Cloud) where
  unfoldable pub load_template : Dataset → Go PodTemplate
  unfolding load_container template with_params
  load_template d = do
    params ← with_params "load" dataset d (
        template (load_container d) (("dataset", d.metadata.name) ∷ ("role", "run") ∷ [])
          data_loader "Never" group_3003)
    mount L cloud "mounting bucket" (one_mount "load" "artifacts" "artifacts" "artifacts" false)
        dataset d params

  unfoldable pub load_job : Dataset → Go Job
  unfolding load_template with_resources
  load_job d = do
    mounted ← load_template d
    owned ←
        own L "setting owner reference" (owner_of dataset d)
          (fresh_meta (d.metadata.name <> "-data-loader") d.metadata.namespace)
    pod ← with_resources "load" cloud d.spec.resources mounted
    ok (record {
      metadata = owned;
      backoff_limit = 2;
      template = pod;
      succeeded = 0;
      conditions = [];
    })
