-- ===== src/Cloud/Types.antt =====
-- The structs of internal/cloud (cloud.go, common.go, gcp.go, kind.go, utils.go).
use runbooks.Prelude.{String, Bool, Option, List}

-- A URL of a bucket, utils.go.
pub record BucketUrl : Type 0 where
  pub scheme : String
  pub bucket : String
  pub path : String

pub record Common : Type 0 where
  pub cluster_name : String
  pub artifact_bucket_url : Option BucketUrl
  pub registry_url : String
  pub principal : String

pub record Gcp : Type 0 where
  pub common : Common
  pub open common use *
  pub project_id : String
  pub cluster_location : String

pub record KindCluster : Type 0 where
  pub common : Common
  pub open common use *
  pub registry_discovery_ip : String

-- The implementations of the interface `Cloud`.
pub data Cloud : Type 0 where
  gcp : Gcp → Cloud
  kind : KindCluster → Cloud

pub record BucketMount : Type 0 where
  pub bucket_subdir : String
  pub content_subdir : String

pub record MountBucketConfig : Type 0 where
  pub container : String
  pub name : String
  pub mounts : List BucketMount
  pub read_only : Bool

abbrev pub gcp_name : String
gcp_name = "gcp"

abbrev pub kind_cloud_name : String
kind_cloud_name = "kind"

-- `Name()`
abbrev pub name : Cloud → String
name (gcp c) = gcp_name
name (kind c) = kind_cloud_name

abbrev pub common_of : Cloud → Common
common_of (gcp c) = c.common
common_of (kind c) = c.common
