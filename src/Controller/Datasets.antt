-- ===== src/Controller/Datasets.antt =====
-- dataset_controller.go: a dataset is loaded by a Job.
mod Job
mod Reconcile
pub mod Runs
pub mod Arrives
unfoldable pub use Job.*
unfoldable pub use Reconcile.*
