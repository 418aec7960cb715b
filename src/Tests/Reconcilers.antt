-- ===== src/Tests/Reconcilers.antt =====
-- The theorems on the four reconcilers, on a cluster.
use runbooks.Prelude.{refl, true, []}
use runbooks.Program.{run}
use runbooks.Program.Always.{Each}
use runbooks.Controller.Models as Models
use runbooks.Controller.Models.Runs.{model_runs-Kept}
use runbooks.Controller.Datasets as Datasets
use runbooks.Controller.Datasets.Runs.{dataset_runs-Kept}
use runbooks.Controller.Servers as Servers
use runbooks.Controller.Servers.Runs.{server_runs-Kept}
use runbooks.Controller.Notebooks as Notebooks
use runbooks.Controller.Notebooks.Steps.{Kept as NotebookKept}
use runbooks.Controller.Notebooks.Runs.{notebook_runs-Kept}
use runbooks.Tests.Cluster.{
  library, put_condition-SetsCondition, on_gcp, on_kind, tuned_model, a_dataset, a_server,
  a_notebook, a_job, key, answers,
}

model_runs-Kept_example :
    Each
      (Models.Steps.Kept tuned_model)
      (run (answers tuned_model (a_job "i" 1)) [] (Models.reconcile library on_gcp (key "tuned"))).0
model_runs-Kept_example =
    model_runs-Kept library put_condition-SetsCondition on_gcp (answers tuned_model (a_job "i" 1))
      (key "tuned") tuned_model refl

dataset_runs-Kept_example :
    Each Datasets.Runs.Kept
      (run
        (answers tuned_model (a_job "i" 1))
        []
        (Datasets.reconcile library on_kind (key "data"))).0
dataset_runs-Kept_example =
    dataset_runs-Kept library put_condition-SetsCondition on_kind
      (answers tuned_model (a_job "i" 1)) (key "data") (a_dataset true) refl

server_runs-Kept_example :
    Each
      (Servers.Steps.Kept a_server)
      (run
        (answers tuned_model (a_job "i" 1))
        []
        (Servers.reconcile library on_gcp (key "serve"))).0
server_runs-Kept_example =
    server_runs-Kept library put_condition-SetsCondition on_gcp (answers tuned_model (a_job "i" 1))
      (key "serve") a_server refl

notebook_runs-Kept_example :
    Each
      (NotebookKept a_notebook)
      (run (answers tuned_model (a_job "i" 1)) [] (Notebooks.reconcile library on_gcp (key "nb"))).0
notebook_runs-Kept_example =
    notebook_runs-Kept library put_condition-SetsCondition on_gcp
      (answers tuned_model (a_job "i" 1)) (key "nb") a_notebook refl
