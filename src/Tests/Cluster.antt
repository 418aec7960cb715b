-- ===== src/Tests/Cluster.antt =====
-- Concrete objects, a library, and API servers that answer every call.
use runbooks.Prelude.{
  ℕ, String, refl, ◌==◌, if◌then◌else◌, Bool, true, false, Option, none, some, [], ◌∷◌, arith,
}
use text.Mathlib.TextEquality.{eq_iff}
use runbooks.Kube.{Key, ObjectMeta, Job, Pod, Deployment, PodSpec}
use runbooks.Program.{
  ok, found, created, deleted, patched, written, get, update, update_status, list, get_job,
  create_job, delete_job, get_pod, patch_pod, delete_pod, get_deployment, patch_deployment,
  patch_service, create_or_update_config_map, create_or_update_service_account, bind_identity,
  get_object_md5, create_signed_url, now, Env,
}
use runbooks.Library.{Library, referenced, SetsCondition, find_condition, put_condition}
use runbooks.Api.{
  Build, BuildUpload, model, dataset, server, notebook, Model, Dataset, Server, Notebook,
  UploadStatus,
}
use runbooks.Client.Objects.{AnyObject, known}
use runbooks.Cloud.{Cloud, gcp, kind, Common}

pub put_condition-SetsCondition : SetsCondition put_condition
unfolding put_condition find_condition
put_condition-SetsCondition [] c t = refl
put_condition-SetsCondition (d ∷ cs) c t = ground (
  arith,
  eq_iff d.type c.type,
  eq_iff c.type t,
  eq_iff d.type t,
  put_condition-SetsCondition cs c t,
)

abbrev pub library : Library
library = record {
  md5_hex = λ s. "0123456789abcdef";
  parse_url = λ s. ok (record { scheme = "gs"; host = "artifacts"; path = "/x" });
  marshal_params = λ ps. ok "{}";
  set_status_condition = put_condition;
  set_controller_reference = λ owner m. referenced (record m { owners = owner ∷ [] });
}

abbrev pub common : Common
common = record {
  cluster_name = "c";
  artifact_bucket_url = some (record { scheme = "gs"; bucket = "artifacts"; path = "" });
  registry_url = "r";
  principal = "p";
}

abbrev pub on_gcp : Cloud
on_gcp =
    gcp (record { common = common; project_id = "project"; cluster_location = "us-central1-a" })

abbrev pub on_kind : Cloud
on_kind = kind (record { common = common; registry_discovery_ip = "10.0.0.1" })

abbrev pub meta : String → ObjectMeta
meta name = record {
  name = name;
  namespace = "default";
  generation = 1;
  resource_version = "";
  annotations = [];
  labels = [];
  owners = [];
}

abbrev pub no_upload : UploadStatus
no_upload = record { signed_url = ""; request_id = ""; expiration = 0; stored_md5_checksum = "" }

abbrev pub from_git : Build
from_git = record {
  git = some (record { url = "https://g/r"; path = ""; tag = "v1"; branch = "" });
  upload = none;
}

abbrev pub an_upload : BuildUpload
an_upload = record { md5_checksum = "m"; request_id = "1" }

abbrev pub from_upload : Build
from_upload = record { git = none; upload = some an_upload }

abbrev pub a_model : String → Option String → Option Build → Bool → Model
a_model name image build ready = record {
  kind = "Model";
  metadata = meta name;
  spec = record {
    command = none;
    env = [];
    image = image;
    build = build;
    resources = none;
    model = none;
    dataset = none;
    params = [];
  };
  status = record {
    ready = ready;
    conditions = [];
    artifacts = record { url = "" };
    build_upload = no_upload;
  };
}

-- A model to train from a base model and a dataset.
abbrev pub tuned_model : Model
tuned_model = record (a_model "tuned" (some "r/i") none false) {
  spec = record ((a_model "tuned" (some "r/i") none false).spec) {
    model = some (record { name = "base" });
    dataset = some (record { name = "data" });
  };
}

abbrev pub a_dataset : Bool → Dataset
a_dataset ready = record {
  kind = "Dataset";
  metadata = meta "data";
  spec = record {
    command = none;
    env = [];
    image = some "r/d";
    build = none;
    resources = none;
    params = [];
  };
  status = record {
    ready = ready;
    conditions = [];
    artifacts = record { url = "" };
    build_upload = no_upload;
  };
}

abbrev pub a_server : Server
a_server = record {
  kind = "Server";
  metadata = meta "serve";
  spec = record {
    command = none;
    env = [];
    image = some "r/s";
    build = none;
    resources = none;
    model = record { name = "base" };
    params = [];
  };
  status = record { ready = false; conditions = []; upload = no_upload };
}

abbrev pub a_notebook : Notebook
a_notebook = record {
  kind = "Notebook";
  metadata = meta "nb";
  spec = record {
    command = none;
    env = [];
    suspend = none;
    image = some "r/n";
    build = none;
    resources = none;
    model = some (record { name = "base" });
    dataset = none;
    params = [];
  };
  status = record {
    ready = false;
    conditions = [];
    artifacts = record { url = "" };
    build_upload = no_upload;
  };
}

abbrev pub key : String → Key
key name = record { name = name; namespace = "default" }

abbrev pub bare_spec : PodSpec
bare_spec = record {
  init_containers = [];
  containers = [];
  volumes = [];
  node_selector = [];
  tolerations = [];
  service_account_name = "";
  restart_policy = "";
  security_context = none;
}

-- A builder Job for the image, that succeeded so many times.
abbrev pub a_job : String → ℕ → Job
a_job image succeeded = record {
  metadata = record (meta "job") { annotations = ("image", image) ∷ [] };
  backoff_limit = 1;
  template = record { metadata = meta ""; spec = bare_spec };
  succeeded = succeeded;
  conditions = record { type = "Complete"; status = "True" } ∷ [];
}

abbrev pub a_pod : Pod
a_pod = record {
  metadata = meta "nb-notebook";
  spec = bare_spec;
  phase = "Running";
  conditions = record { type = "Ready"; status = "True" } ∷ [];
}

abbrev pub a_deployment : Deployment
a_deployment = record {
  metadata = meta "serve-server";
  replicas = 1;
  selector = [];
  template = record { metadata = meta ""; spec = bare_spec };
  ready_replicas = 1;
}

-- The model of the key: the one given, or a base model that is ready.
abbrev pub models : Model → Key → Model
models m k = if k.name == m.metadata.name then m else a_model "base" (some "r/b") none true

-- All calls succeed; the Job is the one given, and the Pod and the Deployment are ready.
abbrev pub cluster : Bool → Notebook → Model → Job → Env
cluster data_ready n m j h (get model k) = found (models m k)
cluster data_ready n m j h (get dataset k) = found (a_dataset data_ready)
cluster data_ready n m j h (get server k) = found a_server
cluster data_ready n m j h (get notebook k) = found n
cluster data_ready n m j h (update k o) = written o
cluster data_ready n m j h (update_status k o) = written o
cluster data_ready n m j h (list k index value namespace) = ok []
cluster data_ready n m j h (get_job k) = found j
cluster data_ready n m j h (create_job i) = created i
cluster data_ready n m j h (delete_job i) = deleted
cluster data_ready n m j h (get_pod k) = found a_pod
cluster data_ready n m j h (patch_pod p) = patched p
cluster data_ready n m j h (delete_pod k) = deleted
cluster data_ready n m j h (get_deployment k) = found a_deployment
cluster data_ready n m j h (patch_deployment d) = patched d
cluster data_ready n m j h (patch_service s) = patched s
cluster data_ready n m j h (create_or_update_config_map c f) = written c
cluster data_ready n m j h (create_or_update_service_account s f) = written s
cluster data_ready n m j h (bind_identity r) = ok tt
cluster data_ready n m j h (get_object_md5 r) = ok "m"
cluster data_ready n m j h (create_signed_url r) = ok "https://signed"
cluster data_ready n m j h now = 0

abbrev pub answers : Model → Job → Env
answers = cluster true a_notebook

abbrev pub a_model_object : AnyObject
a_model_object = known model (a_model "llm" none none false)
