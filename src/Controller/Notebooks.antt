-- ===== src/Controller/Notebooks.antt =====
-- notebook_controller.go: a notebook runs in a Pod, with a model and a dataset mounted.
mod Workspace
mod Reconcile
pub mod Steps
pub mod Runs
pub mod Arrives
unfoldable pub use Workspace.*
unfoldable pub use Reconcile.*
