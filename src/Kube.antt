-- ===== src/Kube.antt =====
-- The Kubernetes objects that the controllers read and write: of each struct the fields that the
-- code sets or tests. The libraries that declare them are not in the repository.
pub mod Containers
use runbooks.Prelude.{ℕ, String, Bool, Option, List}
use runbooks.Prelude.Dict.{Dict}

-- `types.NamespacedName`
pub record Key : Type 0 where
  pub name : String
  pub namespace : String

pub record OwnerReference : Type 0 where
  pub kind : String
  pub name : String

pub record ObjectMeta : Type 0 where
  pub name : String
  pub namespace : String
  pub generation : ℕ
  -- set by the API server
  pub resource_version : String
  pub annotations : Dict String
  pub labels : Dict String
  pub owners : List OwnerReference

-- `metav1.Condition`; its `LastTransitionTime` is set by the library.
pub record Condition : Type 0 where
  pub type : String
  pub status : Bool
  pub reason : String
  pub observed_generation : ℕ
  pub message : String

pub data Format : Type 0 where
  decimal_si binary_si : Format

-- `resource.Quantity` as `resource.NewQuantity` makes it: an int64 and a format.
pub record Quantity : Type 0 where
  pub value : ℕ
  pub format : Format

pub record ResourceRequirements : Type 0 where
  pub requests : Dict Quantity
  pub limits : Dict Quantity

pub record SecretKeySelector : Type 0 where
  pub name : String
  pub key : String

pub record EnvVar : Type 0 where
  pub name : String
  pub value : String
  pub value_from : Option SecretKeySelector

pub record VolumeMount : Type 0 where
  pub name : String
  pub mount_path : String
  pub sub_path : String
  pub read_only : Bool

pub data VolumeSource : Type 0 where
  empty_dir : VolumeSource
  host_path : String → String → VolumeSource
  config_map : String → VolumeSource
  csi : String → Bool → Dict String → VolumeSource

pub record Volume : Type 0 where
  pub name : String
  pub source : VolumeSource

pub record ContainerPort : Type 0 where
  pub name : String
  pub port : ℕ

-- `intstr.IntOrString`
pub data IntOrString : Type 0 where
  int : ℕ → IntOrString
  str : String → IntOrString

pub record HttpGet : Type 0 where
  pub path : String
  pub port : IntOrString

pub record Container : Type 0 where
  pub name : String
  pub image : String
  pub image_pull_policy : String
  pub command : Option (List String)
  pub args : List String
  pub ports : List ContainerPort
  pub env : List EnvVar
  pub readiness_probe : Option HttpGet
  pub volume_mounts : List VolumeMount
  pub resources : ResourceRequirements

pub record Toleration : Type 0 where
  pub key : String
  pub operator : String
  pub value : String
  pub effect : String

pub record SecurityContext : Type 0 where
  pub run_as_user : Option ℕ
  pub run_as_group : Option ℕ
  pub fs_group : Option ℕ

pub record PodSpec : Type 0 where
  pub init_containers : List Container
  pub containers : List Container
  pub volumes : List Volume
  pub node_selector : Dict String
  pub tolerations : List Toleration
  pub service_account_name : String
  pub restart_policy : String
  pub security_context : Option SecurityContext

pub record PodTemplate : Type 0 where
  pub metadata : ObjectMeta
  pub spec : PodSpec

-- An entry of a Job's or a Pod's `status.conditions`.
pub record StatusCondition : Type 0 where
  pub type : String
  pub status : String

pub record Job : Type 0 where
  pub metadata : ObjectMeta
  pub backoff_limit : ℕ
  pub template : PodTemplate
  pub succeeded : ℕ
  pub conditions : List StatusCondition

pub record Pod : Type 0 where
  pub metadata : ObjectMeta
  pub spec : PodSpec
  pub phase : String
  pub conditions : List StatusCondition

pub record Deployment : Type 0 where
  pub metadata : ObjectMeta
  pub replicas : ℕ
  pub selector : Dict String
  pub template : PodTemplate
  pub ready_replicas : ℕ

pub record ServicePort : Type 0 where
  pub name : String
  pub protocol : String
  pub port : ℕ
  pub target_port : IntOrString

pub record Service : Type 0 where
  pub metadata : ObjectMeta
  pub selector : Dict String
  pub ports : List ServicePort

pub record ServiceAccount : Type 0 where
  pub metadata : ObjectMeta

pub record ConfigMap : Type 0 where
  pub metadata : ObjectMeta
  pub contents : Dict String
