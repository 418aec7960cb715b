-- ===== src/Controller/Workload.antt =====
-- What the four workload constructors share: the container, its parameters, its mounts and its
-- resources, set one after another on a pod template.
use runbooks.Prelude.{String, Bool, Option, none, some, [], ◌∷◌}
use runbooks.Prelude.Dict.{Dict}
use runbooks.Kube.{Container, PodTemplate, SecurityContext}
use runbooks.Program.{Go, ok}
use runbooks.Program.Fallible.{◌>>=◌, wrap}
use runbooks.Library.{Library}
use runbooks.Api.{Kind, Object, Resources}
use runbooks.Cloud.{Cloud, name, MountBucketConfig, mount_bucket}
use runbooks.Resources.{apply}
use runbooks.Controller.Params.{fresh_meta, mount_params_config_map}

-- One subdirectory of a bucket under /content.
abbrev pub one_mount : String → String → String → String → Bool → MountBucketConfig
one_mount container name bucket_subdir content_subdir read_only = record {
  container = container;
  name = name;
  mounts = record { bucket_subdir = bucket_subdir; content_subdir = content_subdir } ∷ [];
  read_only = read_only;
}

-- The pod template of one container, with its labels, before anything is mounted.
unfoldable pub template :
    Container → Dict String → String → String → Option SecurityContext → PodTemplate
template c labels account restart_policy security = record {
  metadata = record (fresh_meta "" "") {
    annotations = ("kubectl.kubernetes.io/default-container", c.name) ∷ [];
    labels = labels;
  };
  spec = record {
    init_containers = [];
    containers = c ∷ [];
    volumes = [];
    node_selector = [];
    tolerations = [];
    service_account_name = account;
    restart_policy = restart_policy;
    security_context = security;
  };
}

abbrev pub group_3003 : Option SecurityContext
group_3003 = some (record { run_as_user = none; run_as_group = none; fs_group = some 3003 })

module _ (container : String) where
  unfoldable pub with_params : (k : Kind) → Object k → PodTemplate → Go PodTemplate
  with_params k o pod = do
    spec ← wrap "mounting params configmap" (mount_params_config_map pod.spec k o container)
    ok (record pod { spec = spec })

  unfoldable pub with_resources : Cloud → Option Resources → PodTemplate → Go PodTemplate
  with_resources cloud res pod = do
    spec ← wrap "applying resources" (apply pod.spec container (name cloud) res)
    ok (record pod { spec = spec })

module _ (L : Library) (cloud : Cloud) where
  abbrev pub mount :
      String → MountBucketConfig → (k : Kind) → Object k → PodTemplate → Go PodTemplate
  mount what req k o pod = wrap what (mount_bucket L cloud pod k o req)

  -- A mount that is made where the object is there.
  abbrev pub mount_optional :
      String → MountBucketConfig → (k : Kind) → Option (Object k) → PodTemplate → Go PodTemplate
  mount_optional what req k none pod = ok pod
  mount_optional what req k (some o) pod = mount what req k o pod
