-- ===== src/Controller/Servers.antt =====
-- server_controller.go: a model is served by a Deployment behind a Service.
mod Objects
mod Reconcile
pub mod Steps
pub mod Runs
pub mod Arrives
unfoldable pub use Objects.*
unfoldable pub use Reconcile.*
