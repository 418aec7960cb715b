-- ===== src/Program/Calls.antt =====
-- What the controllers ask of the API server (sigs.k8s.io/controller-runtime `client.Client`, and
-- `controllerutil.CreateOrUpdate` with its mutation) and of the SCI service (internal/sci).
use runbooks.Prelude.{ℕ, String, List}
use runbooks.Kube.{Key, Job, Pod, Deployment, Service, ServiceAccount, ConfigMap}
use runbooks.Api.{Kind, Object}

-- A value, an `error` with its message, or a panic.
pub data Go (A : Type 0) : Type 0 where
  ok : A → Go A
  err : String → Go A
  panic : String → Go A

-- `Get`: an error for which `apierrors.IsNotFound` holds is `missing`.
pub data Fetch (A : Type 0) : Type 0 where
  found : A → Fetch A
  missing : Fetch A
  fetch_error : String → Fetch A

-- `Create`: the object as the server answers it.
pub data Creation (A : Type 0) : Type 0 where
  created : A → Creation A
  exists : Creation A
  create_error : String → Creation A

pub data Deletion : Type 0 where
  deleted : Deletion
  gone : Deletion
  delete_error : String → Deletion

-- `Patch`: an error for which `apierrors.IsInvalid` holds is `invalid`.
pub data Patch (A : Type 0) : Type 0 where
  patched : A → Patch A
  invalid : Patch A
  patch_error : String → Patch A

-- `Update` and `Status().Update` put the server's version in place of the object.
pub data Write (A : Type 0) : Type 0 where
  written : A → Write A
  write_error : String → Write A

-- sci.BindIdentityRequest
pub record BindIdentityRequest : Type 0 where
  pub principal : String
  pub kubernetes_namespace : String
  pub kubernetes_service_account : String

-- sci.GetObjectMd5Request
pub record GetObjectMd5Request : Type 0 where
  pub bucket_name : String
  pub object_name : String

-- sci.CreateSignedURLRequest
pub record CreateSignedUrlRequest : Type 0 where
  pub bucket_name : String
  pub object_name : String
  pub expiration_seconds : ℕ
  pub md5_checksum : String

pub data Call : Type 0 where
  get : Kind → Key → Call
  update : (k : Kind) → Object k → Call
  update_status : (k : Kind) → Object k → Call
  list : Kind → String → String → String → Call
  get_job : Key → Call
  create_job : Job → Call
  delete_job : Job → Call
  get_pod : Key → Call
  patch_pod : Pod → Call
  delete_pod : Key → Call
  get_deployment : Key → Call
  patch_deployment : Deployment → Call
  patch_service : Service → Call
  create_or_update_config_map : ConfigMap → (ConfigMap → Go ConfigMap) → Call
  create_or_update_service_account : ServiceAccount → (ServiceAccount → Go ServiceAccount) → Call
  bind_identity : BindIdentityRequest → Call
  get_object_md5 : GetObjectMd5Request → Call
  create_signed_url : CreateSignedUrlRequest → Call
  now : Call

abbrev pub Answer : Call → Type 0
Answer (get k key) = Fetch (Object k)
Answer (update k o) = Write (Object k)
Answer (update_status k o) = Write (Object k)
Answer (list k index value namespace) = Go (List (Object k))
Answer (get_job key) = Fetch Job
Answer (create_job j) = Creation Job
Answer (delete_job j) = Deletion
Answer (get_pod key) = Fetch Pod
Answer (patch_pod p) = Patch Pod
Answer (delete_pod key) = Deletion
Answer (get_deployment key) = Fetch Deployment
Answer (patch_deployment d) = Patch Deployment
Answer (patch_service s) = Patch Service
Answer (create_or_update_config_map c f) = Write ConfigMap
Answer (create_or_update_service_account s f) = Write ServiceAccount
Answer (bind_identity r) = Go (Unit {0})
Answer (get_object_md5 r) = Go String
Answer (create_signed_url r) = Go String
Answer now = ℕ

-- A call with the answer it got.
abbrev pub Event : Type 0
Event = (c : Call) × Answer c
