-- ===== src/Tests/Parts.antt =====
-- The theorems on clouds, resources, accounts, parameters and Jobs, on concrete inputs.
use runbooks.Prelude.{
  String, ◌≡◌, refl, ◌==◌, if◌then◌else◌, true, false, none, some, List, [], ◌∷◌,
}
use runbooks.Prelude.Dict.{lookup, insert}
use runbooks.Kube.{ServiceAccount, PodTemplate, ConfigMap, StatusCondition}
use runbooks.Program.{Go, ok, bind_identity, Program, call}
use runbooks.Api.{model, Model, Resources}
use runbooks.Cloud.{
  BucketUrl, Gcp, gcp, MountBucketConfig, object_built_image_url, mount_bucket, object_artifact_url,
}
use runbooks.Prelude.Text.{to_lower}
use runbooks.Cloud.{hash_input, object_hash_input}
use runbooks.Cloud.Hashes.{no_slash, same_hash_input}
use runbooks.Cloud.Images.{same_image}
use runbooks.Cloud.Mounted.{Bucketed, mount_bucket-Bucketed}
use runbooks.Cloud.Configure.{Metadata, auto_configure_gcp, discover, fill, registry}
use runbooks.Cloud.Configured.{configured_gcp-artifacts}
use runbooks.Resources.{base_requirements, set_container_resources}
use runbooks.Resources.Applied.{Placed, set_container_resources-Placed}
use runbooks.Controller.ServiceAccounts.{reconcile_service_account}
use runbooks.Controller.Accounts.{binds_each_time}
use runbooks.Controller.Build.{plain_container}
use runbooks.Controller.Status.{job_result}
use runbooks.Controller.Models.{backoff_limit}
use runbooks.Controller.Reports.{Decides, job_result-Decides}
use runbooks.Controller.Params.{configure_params}
use runbooks.Controller.Configured.{Marshalled, configure_params-Marshalled}
use runbooks.Tests.Cluster.{library, on_gcp, common, meta, bare_spec, a_model, from_git}

abbrev in_namespace : String → String → Model
in_namespace namespace name = record (a_model name none (some from_git) false) {
  metadata = record (meta name) { namespace = namespace };
}

same_image_example :
    object_built_image_url common model (in_namespace "team-a" "llm")
    ≡ object_built_image_url common model (in_namespace "team" "a-llm")
same_image_example =
    same_image common model (in_namespace "team-a" "llm") (in_namespace "team" "a-llm") "team" "a"
      "llm" refl refl refl refl refl refl

abbrev builder_account : ServiceAccount
builder_account = record { metadata = meta "container-builder" }

abbrev pod : PodTemplate
pod = record {
  metadata = meta "";
  spec = record (bare_spec) {
    containers = plain_container "sidecar" "s" ∷ plain_container "model" "m" ∷ [];
  };
}

abbrev artifacts_mount : MountBucketConfig
artifacts_mount = record {
  container = "model";
  name = "artifacts";
  mounts = record { bucket_subdir = "artifacts"; content_subdir = "artifacts" } ∷ [];
  read_only = false;
}

mount_bucket-Bucketed_example :
    Bucketed library on_gcp model
      (in_namespace "team" "llm")
      pod
      artifacts_mount
      (mount_bucket library on_gcp pod model (in_namespace "team" "llm") artifacts_mount)
mount_bucket-Bucketed_example =
    mount_bucket-Bucketed library on_gcp pod model (in_namespace "team" "llm") artifacts_mount

abbrev off_gce : Metadata
off_gce = record {
  on_gce = false;
  project_id = ok "";
  cluster_name = ok "";
  cluster_location = ok "";
}

abbrev new_gcp : Gcp
new_gcp = record {
  common = record (common) { artifact_bucket_url = none };
  project_id = "project";
  cluster_location = "us-central1-a";
}

abbrev ready_gcp : Gcp
ready_gcp = record (new_gcp) {
  common = record (common) {
    artifact_bucket_url =
        some (record { scheme = "gs"; bucket = "project-substratus-artifacts"; path = "" });
  };
}

configured_gcp-artifacts_example :
    (v : BucketUrl) × (object_artifact_url library ready_gcp.common model
        (in_namespace "team" "llm")
      ≡ ok v)
unfolding auto_configure_gcp discover fill registry
configured_gcp-artifacts_example =
    configured_gcp-artifacts library off_gce new_gcp ready_gcp model (in_namespace "team" "llm")
      refl refl

abbrev small : Resources
small = record { cpu = 2; disk = 100; memory = 4; gpu = none }

set_container_resources-Placed_example :
    Placed "model" pod.spec
      (base_requirements small)
      (set_container_resources "model" pod.spec (base_requirements small))
set_container_resources-Placed_example =
    set_container_resources-Placed "model" pod.spec (base_requirements small)

abbrev the_gcp : Gcp
the_gcp = record { common = common; project_id = "project"; cluster_location = "us-central1-a" }

binds_each_time_example :
    (next : Go (Unit {0}) → Program (Unit {0})) × (reconcile_service_account
        (gcp the_gcp)
        "modeller"
        "default"
      ≡ call
          (bind_identity (record {
            principal = "p";
            kubernetes_service_account = "modeller";
            kubernetes_namespace = "default";
          }))
          next)
binds_each_time_example = binds_each_time the_gcp "modeller" "default"

abbrev suspended_then_failed : List StatusCondition
suspended_then_failed =
    record { type = "Suspended"; status = "True" }
    ∷ record { type = "Failed"; status = "True" }
    ∷ []

job_result-Decides_example : Decides suspended_then_failed (job_result suspended_then_failed)
job_result-Decides_example = job_result-Decides suspended_then_failed

reported_as_failed : job_result suspended_then_failed ≡ (false, true)
unfolding job_result
reported_as_failed = refl

abbrev no_gpu : Resources
no_gpu = record (small) { gpu = some (record { type = "nvidia-t4"; count = 0 }) }

not_retried : backoff_limit (some small) ≡ 0
unfolding backoff_limit
not_retried = refl

abbrev old_params : ConfigMap
old_params = record { metadata = meta "llm-model-params"; contents = ("notes", "n") ∷ [] }

abbrev new_params : ConfigMap
new_params = record {
  metadata = record (meta "llm-model-params") {
    owners = record { kind = "Model"; name = "llm" } ∷ [];
  };
  contents = ("notes", "n") ∷ ("params.json", "{}") ∷ [];
}

configure_params-Marshalled_example :
    (text : String) × Marshalled library [] text
    × ((j : String)
        → lookup j new_params.contents
          ≡ (if "params.json" == j then some text else lookup j old_params.contents))
unfolding configure_params insert
configure_params-Marshalled_example =
    configure_params-Marshalled library model (in_namespace "team" "llm") old_params new_params refl

abbrev rebuilt : Model
rebuilt = record (in_namespace "team" "llm") { kind = "model" }

same_hash_input_example :
    (to_lower "Model" ≡ to_lower "model")
    × (◌≡◌ {A = String} "team" "team")
    × (◌≡◌ {A = String} "llm" "llm")
unfolding object_hash_input hash_input no_slash to_lower
same_hash_input_example =
    same_hash_input "c" model model (in_namespace "team" "llm") rebuilt
      "clusters/c/namespaces/team/models/llm" (refl, refl) (refl, refl) refl refl
