-- ===== src/Tests/Arrivals.antt =====
-- The theorems on what becomes ready, on a cluster on kind.
use runbooks.Prelude.{Bool, refl, false, true, none, some, inl, []}
use runbooks.Prelude.Text.{to_lower}
use runbooks.Prelude.FilePath.{join_path}
use runbooks.Kube.{Job}
use runbooks.Program.{run}
use runbooks.Api.{model, dataset, server, notebook, Model, Notebook}
use runbooks.Cloud.{
  object_artifact_url, object_built_image_url, mount_bucket, show_bucket_url, parse_bucket_url,
}
use runbooks.Resources.{apply, default_resources, set_container_resources, set_first}
use runbooks.Controller.Params.{mount_params_config_map}
use runbooks.Controller.Shared.{own}
use runbooks.Controller.Status.{is_pod_ready, job_result}
use runbooks.Controller.Willing.{Willing, Completes, EndsReady, Serves, PodsReady}
use runbooks.Controller.Models as Models
use runbooks.Controller.Models.Arrives.{model_becomes_ready}
use runbooks.Controller.Datasets as Datasets
use runbooks.Controller.Datasets.Arrives.{dataset_becomes_ready}
use runbooks.Controller.Servers as Servers
use runbooks.Controller.Servers.Arrives.{server_becomes_ready}
use runbooks.Controller.Notebooks as Notebooks
use runbooks.Controller.Notebooks.Arrives.{
  Stopped, notebook_becomes_ready, suspended_notebook_stops,
}
use runbooks.Controller.Build.{
  reconcile_build, git_build_job, storage_build_job, mark_found, image_annotation,
}
use runbooks.Controller.Build.Arrives.{Imaged, git_build_arrives, upload_build_arrives}
use runbooks.Tests.Cluster.{
  library, on_kind, a_model, tuned_model, a_dataset, a_server, a_notebook, a_job, from_git,
  from_upload, an_upload, key, cluster, answers,
}

cluster-Willing :
    (data_ready : Bool) (n : Notebook) (m : Model) (j : Job) → Willing (cluster data_ready n m j)
cluster-Willing data_ready n m j = record {
  updates = λ h k o. refl;
  saves = λ h k o. refl;
  maps = λ h cm f. refl;
  accounts = λ h s f. refl;
  binds = λ h r. refl;
  pods = λ h p. refl;
  pods_deleted = λ h k. refl;
  deployments = λ h d. refl;
  services = λ h s. refl;
  jobs = λ h i. inl refl;
}

answers-Willing : (m : Model) (j : Job) → Willing (answers m j)
answers-Willing = cluster-Willing true a_notebook

cluster-Completes :
    (data_ready : Bool) (m : Model) → Completes (cluster data_ready a_notebook m (a_job "i" 1))
unfolding job_result
cluster-Completes data_ready m h k = (a_job "i" 1, refl, refl)

answers-Serves : (m : Model) (j : Job) → Serves (answers m j)
answers-Serves m j h k = (_, refl, refl)

answers-PodsReady : (m : Model) (j : Job) → PodsReady (answers m j)
unfolding is_pod_ready
answers-PodsReady m j h k = (_, refl, refl)

model_becomes_ready_example :
    EndsReady model
      (run
        (answers tuned_model (a_job "i" 1))
        []
        (Models.reconcile library on_kind (key "tuned"))).0
      (run
        (answers tuned_model (a_job "i" 1))
        []
        (Models.reconcile library on_kind (key "tuned"))).1
unfolding Models.modeller_job object_artifact_url mount_params_config_map mount_bucket
    show_bucket_url join_path parse_bucket_url own apply default_resources set_container_resources
    set_first
model_becomes_ready_example =
    model_becomes_ready library on_kind (answers tuned_model (a_job "i" 1)) (key "tuned")
      tuned_model _ (some (a_model "base" (some "r/b") none true)) (some (a_dataset true)) _
      (answers-Willing tuned_model (a_job "i" 1)) (cluster-Completes true tuned_model) refl refl
      refl refl refl (refl, λ h. refl) (refl, λ h. refl) refl

dataset_becomes_ready_example :
    EndsReady dataset
      (run
        (cluster false a_notebook tuned_model (a_job "i" 1))
        []
        (Datasets.reconcile library on_kind (key "data"))).0
      (run
        (cluster false a_notebook tuned_model (a_job "i" 1))
        []
        (Datasets.reconcile library on_kind (key "data"))).1
unfolding Datasets.load_job object_artifact_url mount_params_config_map mount_bucket show_bucket_url
    join_path parse_bucket_url own apply default_resources set_container_resources set_first
dataset_becomes_ready_example =
    dataset_becomes_ready library on_kind (cluster false a_notebook tuned_model (a_job "i" 1))
      (key "data") (a_dataset false) _ _
      (cluster-Willing false a_notebook tuned_model (a_job "i" 1))
      (cluster-Completes false tuned_model) refl refl refl refl refl refl

server_becomes_ready_example :
    EndsReady server
      (run
        (answers tuned_model (a_job "i" 1))
        []
        (Servers.reconcile library on_kind (key "serve"))).0
      (run
        (answers tuned_model (a_job "i" 1))
        []
        (Servers.reconcile library on_kind (key "serve"))).1
unfolding Servers.server_deployment Servers.server_service object_artifact_url
    mount_params_config_map mount_bucket show_bucket_url join_path parse_bucket_url own apply
    default_resources set_container_resources set_first
server_becomes_ready_example =
    server_becomes_ready library on_kind (answers tuned_model (a_job "i" 1)) (key "serve") a_server
      (a_model "base" (some "r/b") none true) _ _ (answers-Willing tuned_model (a_job "i" 1))
      (answers-Serves tuned_model (a_job "i" 1)) refl refl refl (λ h. refl) refl refl refl

notebook_becomes_ready_example :
    EndsReady notebook
      (run
        (answers tuned_model (a_job "i" 1))
        []
        (Notebooks.reconcile library on_kind (key "nb"))).0
      (run
        (answers tuned_model (a_job "i" 1))
        []
        (Notebooks.reconcile library on_kind (key "nb"))).1
unfolding Notebooks.notebook_pod object_artifact_url mount_params_config_map mount_bucket
    show_bucket_url join_path parse_bucket_url own apply default_resources set_container_resources
    set_first
notebook_becomes_ready_example =
    notebook_becomes_ready library on_kind (answers tuned_model (a_job "i" 1)) (key "nb") a_notebook
      (some (a_model "base" (some "r/b") none true)) none _
      (answers-Willing tuned_model (a_job "i" 1)) (answers-PodsReady tuned_model (a_job "i" 1)) refl
      refl refl refl (refl, (refl, λ h. refl)) tt refl

abbrev asleep : Notebook
asleep = record (a_notebook) { spec = record (a_notebook.spec) { suspend = some true } }

suspended_notebook_stops_example :
    Stopped asleep
      (run
        (cluster true asleep tuned_model (a_job "i" 1))
        []
        (Notebooks.reconcile library on_kind (key "nb"))).0
      (run
        (cluster true asleep tuned_model (a_job "i" 1))
        []
        (Notebooks.reconcile library on_kind (key "nb"))).1
suspended_notebook_stops_example =
    suspended_notebook_stops library on_kind (cluster true asleep tuned_model (a_job "i" 1))
      (key "nb") asleep (cluster-Willing true asleep tuned_model (a_job "i" 1)) refl refl refl refl

abbrev git_model : Model
git_model = a_model "m" none (some from_git) false

abbrev upload_model : Model
upload_model = a_model "m" none (some from_upload) false

git_build_arrives_example :
    Imaged model "r/c-model-default-m:v1"
      (run
        (answers git_model (a_job "r/c-model-default-m:v1" 1))
        []
        (reconcile_build library on_kind model (key "m"))).0
      (run
        (answers git_model (a_job "r/c-model-default-m:v1" 1))
        []
        (reconcile_build library on_kind model (key "m"))).1
unfolding git_build_job object_built_image_url to_lower image_annotation own
git_build_arrives_example =
    git_build_arrives library on_kind model (answers git_model (a_job "r/c-model-default-m:v1" 1))
      (key "m") git_model _ "r/c-model-default-m:v1" _
      (answers-Willing git_model (a_job "r/c-model-default-m:v1" 1))
      (λ h k. (a_job "r/c-model-default-m:v1" 1, refl, refl, refl)) refl refl refl refl refl refl

upload_build_arrives_example :
    Imaged model "r/c-model-default-m:m"
      (run
        (answers upload_model (a_job "r/c-model-default-m:m" 1))
        []
        (reconcile_build library on_kind model (key "m"))).0
      (run
        (answers upload_model (a_job "r/c-model-default-m:m" 1))
        []
        (reconcile_build library on_kind model (key "m"))).1
unfolding storage_build_job object_built_image_url object_artifact_url to_lower image_annotation own
    mark_found
upload_build_arrives_example =
    upload_build_arrives library on_kind model
      (answers upload_model (a_job "r/c-model-default-m:m" 1)) (key "m") upload_model an_upload none
      "r/c-model-default-m:m" _ (answers-Willing upload_model (a_job "r/c-model-default-m:m" 1))
      (λ h k. (a_job "r/c-model-default-m:m" 1, refl, refl, refl)) (λ h r. refl) refl refl refl refl
      refl (λ status message. (_, refl, refl))
