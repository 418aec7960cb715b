-- ===== src/Controller/Build/Jobs.antt =====
-- `gitBuildJob`, `storageBuildJob` and `buildJobName`.
use runbooks.Prelude.{String, ◌<>◌, ◌==◌, if◌then◌else◌, false, none, some, List, [], ◌∷◌, ◌++◌}
use runbooks.Prelude.Text.{to_lower}
use runbooks.Kube.{Container, VolumeMount, Volume, empty_dir, host_path, ResourceRequirements, Job}
use runbooks.Program.{Go, ok}
use runbooks.Program.Fallible.{◌>>=◌}
use runbooks.Library.{Library}
use runbooks.Api.{BuildGit, Kind, model, dataset, server, notebook, Object, metadata}
use runbooks.Cloud.{
  Cloud, gcp, kind, name, common_of, object_built_image_url, object_artifact_url, show_bucket_url,
}
use runbooks.Resources.{container_builder_resources}
use runbooks.Controller.Params.{owner_of, fresh_meta}
use runbooks.Controller.ServiceAccounts.{container_builder}
use runbooks.Controller.Shared.{own}

abbrev pub latest_upload_path : String
latest_upload_path = "uploads/latest.tar.gz"

-- The field `Kind` of the four reconcilers that cmd/controllermanager/main.go sets up.
abbrev pub reconciler_kind : Kind → String
reconciler_kind model = "Model"
reconciler_kind dataset = "Dataset"
reconciler_kind server = "Server"
reconciler_kind notebook = "Notebook"

unfoldable pub build_job_name : (k : Kind) → Object k → String
build_job_name k o = (metadata k o).name <> ("-" <> (to_lower (reconciler_kind k) <> "-bld"))

abbrev pub no_resources : ResourceRequirements
no_resources = record { requests = []; limits = [] }

abbrev pub plain_container : String → String → Container
plain_container name image = record {
  name = name;
  image = image;
  image_pull_policy = "";
  command = none;
  args = [];
  ports = [];
  env = [];
  readiness_probe = none;
  volume_mounts = [];
  resources = no_resources;
}

unfoldable pub workspace_mount : VolumeMount
workspace_mount = record {
  name = "workspace";
  mount_path = "/workspace";
  sub_path = "";
  read_only = false;
}

unfoldable pub workspace_volume : Volume
workspace_volume = record { name = "workspace"; source = empty_dir }

unfoldable pub readiness_command : String
readiness_command =
    "curl -sS -H 'Metadata-Flavor: Google' 'http://169.254.169.254/computeMetadata/v1/instance/service-accounts/default/token' --retry 30 --retry-connrefused --retry-max-time 60 --connect-timeout 3 --fail --retry-all-errors > /dev/null && exit 0 || echo 'Retry limit exceeded. Failed to wait for metadata server to be available. Check if the gke-metadata-server Pod in the kube-system namespace is healthy.' >&2; exit 1"

-- On GCP the metadata server is waited for.
unfoldable pub readiness_check : Cloud → List Container
unfolding readiness_command
readiness_check (gcp c) =
    record (plain_container "gcp-workload-identity-readiness-check"
      "gcr.io/google.com/cloudsdktool/cloud-sdk:alpine") {
        args = "/bin/bash" ∷ "-c" ∷ readiness_command ∷ [];
      }
    ∷ []
readiness_check (kind c) = []

unfoldable pub clone_args : BuildGit → List String
clone_args git =
    ("clone" ∷ git.url ∷ [])
    ++ ((if git.tag == ""
          then (if git.branch == "" then [] else "--branch" ∷ git.branch ∷ [])
          else "--branch" ∷ git.tag ∷ [])
        ++ ("/workspace" ∷ []))

-- What follows the context among the arguments of kaniko.
unfoldable pub destination_args : String → List String
destination_args image =
    ("--destination=" <> image)
    ∷ "--cache=true"
    ∷ "--compressed-caching=false"
    ∷ "--log-format=color"
    ∷ "--log-timestamp=false"
    ∷ []

unfoldable pub git_build_args : BuildGit → String → List String
unfolding destination_args
git_build_args git image =
    ("--context=dir:///workspace" ∷ destination_args image)
    ++ (if git.path == "" then [] else ("--context-sub-path=" <> git.path) ∷ [])

unfoldable pub git_clone : BuildGit → Container
unfolding clone_args workspace_mount
git_clone git = record (plain_container "git-clone" "alpine/git") {
  args = clone_args git;
  volume_mounts = workspace_mount ∷ [];
}

-- The Job that both functions make, from what they differ in.
unfoldable pub builder_job :
    Cloud
    → (k : Kind) → Object k
    → String
    → List Container
    → List String
    → List VolumeMount
    → List Volume
    → Job
unfolding build_job_name
builder_job cloud k o image inits args mounts volumes = record {
  metadata = record (fresh_meta (build_job_name k o) (metadata k o).namespace) {
    annotations = ("image", image) ∷ [];
  };
  backoff_limit = 1;
  template = record {
    metadata = record (fresh_meta "" "") {
      annotations = ("kubectl.kubernetes.io/default-container", "builder") ∷ [];
      labels = (to_lower (reconciler_kind k), (metadata k o).name) ∷ ("role", "build") ∷ [];
    };
    spec = record {
      init_containers = inits;
      containers =
          record (plain_container "builder" "gcr.io/kaniko-project/executor:latest") {
            args = args;
            volume_mounts = mounts;
            resources = container_builder_resources (name cloud);
          }
          ∷ [];
      volumes = volumes;
      node_selector = [];
      tolerations = [];
      service_account_name = container_builder;
      restart_policy = "Never";
      security_context =
          some (record { run_as_user = some 0; run_as_group = some 0; fs_group = some 3003 });
    };
  };
  succeeded = 0;
  conditions = [];
}

unfoldable pub bucket_volumes : Cloud → List Volume
unfolding workspace_volume
bucket_volumes (gcp c) = workspace_volume ∷ []
bucket_volumes (kind c) =
    workspace_volume ∷ record { name = "bucket"; source = host_path "/bucket" "Directory" } ∷ []

unfoldable pub bucket_mounts : Cloud → List VolumeMount
unfolding workspace_mount
bucket_mounts (gcp c) = workspace_mount ∷ []
bucket_mounts (kind c) =
    workspace_mount
    ∷ record { name = "bucket"; mount_path = "/bucket"; sub_path = ""; read_only = false }
    ∷ []

module _ (L : Library) (cloud : Cloud) where
  unfoldable pub owned_job : (k : Kind) → Object k → Job → Go Job
  owned_job k o j = do
    m ← own L "setting owner reference" (owner_of k o) j.metadata
    ok (record j { metadata = m })

  unfoldable pub git_build_job : (k : Kind) → Object k → BuildGit → Go Job
  unfolding owned_job builder_job git_build_args git_clone readiness_check workspace_volume
  git_build_job k o git = do
    image ← object_built_image_url (common_of cloud) k o
    owned_job k o (
        builder_job cloud k o image (git_clone git ∷ readiness_check cloud)
          (git_build_args git image) (workspace_mount ∷ []) (workspace_volume ∷ []))

  unfoldable pub storage_build_job : (k : Kind) → Object k → Go Job
  unfolding owned_job builder_job destination_args readiness_check bucket_mounts bucket_volumes
  storage_build_job k o = do
    image ← object_built_image_url (common_of cloud) k o
    artifacts ← object_artifact_url L (common_of cloud) k o
    owned_job k o (
        builder_job cloud k o image (readiness_check cloud)
          (("--context=" <> (show_bucket_url artifacts <> ("/" <> latest_upload_path)))
            ∷ destination_args image)
          (bucket_mounts cloud) (bucket_volumes cloud))
