-- ===== src/Controller/Models/Job.antt =====
-- `modellerJob`
use runbooks.Prelude.{
  ℕ, ◌+◌, ◌%◌, ◌^◌, ◌<>◌, if◌then◌else◌, Bool, true, false, ◌&&◌, Option, none, some, [], ◌∷◌, leb,
  eqb,
}
use runbooks.Kube.{Container, Job, PodTemplate}
use runbooks.Program.{Go, ok}
use runbooks.Program.Fallible.{◌>>=◌}
use runbooks.Library.{Library}
use runbooks.Api.{Resources, GpuResources, model, dataset, Model, Dataset, get_image}
use runbooks.Cloud.{Cloud}
use runbooks.Controller.Env.{resolve_env}
use runbooks.Controller.Params.{fresh_meta, owner_of}
use runbooks.Controller.ServiceAccounts.{modeller}
use runbooks.Controller.Shared.{own}
use runbooks.Controller.Build.{plain_container}
use runbooks.Controller.Workload.{
  one_mount, template, group_3003, with_params, with_resources, mount, mount_optional,
}

-- `a <= b` on int64 values.
abbrev pub le64 : ℕ → ℕ → Bool
le64 a b = leb ((a + 2 ^ 63) % 2 ^ 64) ((b + 2 ^ 63) % 2 ^ 64)

abbrev pub no_gpus : Option GpuResources → Bool
no_gpus none = false
no_gpus (some g) = eqb g.count 0

-- Expensive Jobs are not retried.
unfoldable pub backoff_limit : Option Resources → ℕ
backoff_limit none = 0
backoff_limit (some r) = if le64 r.cpu 3 && no_gpus r.gpu then 2 else 0

unfoldable pub modeller_container : Model → Container
modeller_container m = record (plain_container "model" (get_image model m)) {
  command = m.spec.command;
  env = resolve_env m.spec.env;
}

module _ (L : Library) (cloud : Cloud) where
  -- The pod's mounts, in the order of the code.
  unfoldable pub modeller_template : Model → Option Model → Option Dataset → Go PodTemplate
  unfolding modeller_container template with_params
  modeller_template m base data' = do
    params ← with_params "model" model m (
        template (modeller_container m) (("model", m.metadata.name) ∷ ("role", "run") ∷ []) modeller
          "Never" group_3003)
    own_bucket ←
        mount L cloud "mounting model" (one_mount "model" "artifacts" "artifacts" "artifacts" false)
          model m params
    with_data ←
        mount_optional L cloud "mounting dataset"
          (one_mount "model" "dataset" "artifacts" "data" true) dataset data' own_bucket
    mount_optional L cloud "mounting base model"
        (one_mount "model" "model" "artifacts" "model" true) model base with_data

  unfoldable pub modeller_job : Model → Option Model → Option Dataset → Go Job
  unfolding modeller_template with_resources backoff_limit
  modeller_job m base data' = do
    mounted ← modeller_template m base data'
    owned ←
        own L "setting owner reference" (owner_of model m)
          (fresh_meta (m.metadata.name <> "-modeller") m.metadata.namespace)
    pod ← with_resources "model" cloud m.spec.resources mounted
    ok (record {
      metadata = owned;
      backoff_limit = backoff_limit m.spec.resources;
      template = pod;
      succeeded = 0;
      conditions = [];
    })
