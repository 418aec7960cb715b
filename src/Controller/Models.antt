-- ===== src/Controller/Models.antt =====
-- model_controller.go: a model is trained or imported by a Job, once what it needs is ready.
mod Job
mod Reconcile
pub mod Steps
pub mod Runs
pub mod Arrives
unfoldable pub use Job.*
unfoldable pub use Reconcile.*
