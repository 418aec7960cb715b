-- ===== src/Api/Types.antt =====
-- The structs of api/v1/common_types.go, model_types.go, dataset_types.go, server_types.go and
-- notebook_types.go. A pointer is an `Option`; int64 fields are bit patterns below 2 ^ 64.
use runbooks.Prelude.{ℕ, String, Bool, Option, List}
use runbooks.Prelude.Dict.{Dict}
use runbooks.Kube.{ObjectMeta, Condition, IntOrString}

pub record BuildGit : Type 0 where
  pub url : String
  pub path : String
  pub tag : String
  pub branch : String

pub record BuildUpload : Type 0 where
  pub md5_checksum : String
  pub request_id : String

pub record Build : Type 0 where
  pub git : Option BuildGit
  pub upload : Option BuildUpload

-- `expiration` is in seconds; the zero time is 0.
pub record UploadStatus : Type 0 where
  pub signed_url : String
  pub request_id : String
  pub expiration : ℕ
  pub stored_md5_checksum : String

pub record ObjectRef : Type 0 where
  pub name : String

pub record GpuResources : Type 0 where
  pub type : String
  pub count : ℕ

pub record Resources : Type 0 where
  pub cpu : ℕ
  pub disk : ℕ
  pub memory : ℕ
  pub gpu : Option GpuResources

pub record ArtifactsStatus : Type 0 where
  pub url : String

pub record ModelSpec : Type 0 where
  pub command : Option (List String)
  pub env : Dict String
  pub image : Option String
  pub build : Option Build
  pub resources : Option Resources
  pub model : Option ObjectRef
  pub dataset : Option ObjectRef
  pub params : Dict IntOrString

pub record ModelStatus : Type 0 where
  pub ready : Bool
  pub conditions : List Condition
  pub artifacts : ArtifactsStatus
  pub build_upload : UploadStatus

pub record Model : Type 0 where
  pub kind : String
  pub metadata : ObjectMeta
  pub spec : ModelSpec
  pub status : ModelStatus

pub record DatasetSpec : Type 0 where
  pub command : Option (List String)
  pub env : Dict String
  pub image : Option String
  pub build : Option Build
  pub resources : Option Resources
  pub params : Dict IntOrString

pub record DatasetStatus : Type 0 where
  pub ready : Bool
  pub conditions : List Condition
  pub artifacts : ArtifactsStatus
  pub build_upload : UploadStatus

pub record Dataset : Type 0 where
  pub kind : String
  pub metadata : ObjectMeta
  pub spec : DatasetSpec
  pub status : DatasetStatus

pub record ServerSpec : Type 0 where
  pub command : Option (List String)
  pub env : Dict String
  pub image : Option String
  pub build : Option Build
  pub resources : Option Resources
  pub model : ObjectRef
  pub params : Dict IntOrString

pub record ServerStatus : Type 0 where
  pub ready : Bool
  pub conditions : List Condition
  pub upload : UploadStatus

pub record Server : Type 0 where
  pub kind : String
  pub metadata : ObjectMeta
  pub spec : ServerSpec
  pub status : ServerStatus

pub record NotebookSpec : Type 0 where
  pub command : Option (List String)
  pub env : Dict String
  pub suspend : Option Bool
  pub image : Option String
  pub build : Option Build
  pub resources : Option Resources
  pub model : Option ObjectRef
  pub dataset : Option ObjectRef
  pub params : Dict IntOrString

pub record NotebookStatus : Type 0 where
  pub ready : Bool
  pub conditions : List Condition
  pub artifacts : ArtifactsStatus
  pub build_upload : UploadStatus

pub record Notebook : Type 0 where
  pub kind : String
  pub metadata : ObjectMeta
  pub spec : NotebookSpec
  pub status : NotebookStatus
