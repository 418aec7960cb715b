-- ===== src/Cloud/Configure.antt =====
-- `AutoConfigure` and `region` of internal/cloud/gcp.go and kind.go. The GCE metadata server is a
-- parameter.
use runbooks.Prelude.{String, ◌<>◌, ◌==◌, if◌then◌else◌, Bool, Option, none, some, List, [], ◌∷◌}
use runbooks.Prelude.FilePath.{split, join}
use runbooks.Program.{Go, ok, err, panic}
use runbooks.Program.Fallible.{◌>>=◌}
use runbooks.Cloud.Types.{BucketUrl, Gcp, KindCluster}

-- The answers of `metadata.OnGCE`, `ProjectID` and `InstanceAttributeValue`.
pub record Metadata : Type 0 where
  pub on_gce : Bool
  pub project_id : Go String
  pub cluster_name : Go String
  pub cluster_location : Go String

-- A setting that is given stays; an empty one is asked for.
ask : String → String → Go String → Go String
ask given what answer =
    if given == ""
    then elim answer [
      | ok s ↦ ok s
      | err e ↦ err ("failed to get " <> (what <> (" from metadata server: " <> e)))
      | panic s ↦ panic s
    ]
    else ok given

unfoldable pub discover : Metadata → Gcp → Go Gcp
unfolding ask
discover md g =
    if md.on_gce
    then (do
      project ← ask g.project_id "project ID" md.project_id
      cluster ← ask g.cluster_name "cluster name" md.cluster_name
      location ← ask g.cluster_location "cluster location" md.cluster_location
      ok (record {
        common = record (g.common) { cluster_name = cluster };
        project_id = project;
        cluster_location = location;
      }))
    else ok g

first_two : String → List String → Go String
first_two location (a ∷ b ∷ rest) = ok (join "-" (a ∷ b ∷ []))
first_two location _ = panic ("invalid cluster location: " <> location)

unfoldable pub region : Gcp → Go String
unfolding first_two
region g = first_two g.cluster_location (split b'-' g.cluster_location)

unfoldable pub registry : Gcp → Go String
unfolding region
registry g =
    if g.registry_url == ""
    then (do r ← region g; ok (r <> ("-docker.pkg.dev/" <> (g.project_id <> "/substratus"))))
    else ok g.registry_url

abbrev pub or_else_url : Option BucketUrl → BucketUrl → BucketUrl
or_else_url none u = u
or_else_url (some v) u = v

unfoldable pub fill : Gcp → Go Gcp
unfolding registry
fill g = do
  url ← registry g
  ok (record g {
    common = record {
      cluster_name = g.cluster_name;
      registry_url = url;
      artifact_bucket_url = some (
          or_else_url g.artifact_bucket_url (record {
            scheme = "gs";
            bucket = g.project_id <> "-substratus-artifacts";
            path = "";
          }));
      principal =
          (if g.principal == ""
            then "substratus@" <> (g.project_id <> ".iam.gserviceaccount.com")
            else g.principal);
    };
  })

unfoldable pub auto_configure_gcp : Metadata → Gcp → Go Gcp
unfolding discover fill
auto_configure_gcp md g = do found ← discover md g; fill found

unfoldable pub auto_configure_kind : KindCluster → KindCluster
auto_configure_kind k = record k {
  common = record (k.common) {
    artifact_bucket_url = some (
        or_else_url k.artifact_bucket_url
          (record { scheme = "tar"; bucket = ""; path = "/bucket" }));
    registry_url =
        (if k.registry_url == "" then k.registry_discovery_ip <> ":5000" else k.registry_url);
  };
}
