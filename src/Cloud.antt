-- ===== src/Cloud.antt =====
-- internal/cloud: names of images and artifacts, principals and bucket mounts on GCP and kind.
mod Types
mod Naming
mod Principal
mod Mount
pub mod Configure
pub mod Images
pub mod Hashes
pub mod Mounted
pub mod Configured
pub use Types.*
unfoldable pub use Naming.*
unfoldable pub use Principal.*
unfoldable pub use Mount.*
