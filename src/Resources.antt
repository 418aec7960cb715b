-- ===== src/Resources.antt =====
-- internal/resources: what a container asks for (resources.go, utils.go) and the accelerators of a
-- cloud (gpu_info.go). An int64 is its bit pattern, so that the product with a gigabyte wraps.
mod Gpu
mod Apply
pub mod Applied
unfoldable pub use Gpu.*
unfoldable pub use Apply.*
