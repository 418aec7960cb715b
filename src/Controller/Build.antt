-- ===== src/Controller/Build.antt =====
-- build_reconciler.go: container images are built by Jobs, from git or from an upload.
mod Jobs
mod Upload
mod Reconcile
pub mod Seen
mod Calls
pub mod Image
pub mod Still
pub mod Checked
pub mod Edges
mod Uploads
pub mod Arrives
unfoldable pub use Jobs.*
unfoldable pub use Upload.*
unfoldable pub use Reconcile.*
