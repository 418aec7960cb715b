-- ===== src/Tui.antt =====
-- internal/tui: the terminal user interface of the command line.
pub mod Versions
pub mod Fresh
pub mod Manifests
pub mod Commands
pub mod Scope
pub mod Delete
pub mod Deleted
pub mod Apply
pub mod InTurn
pub mod Applied
pub mod Preferred
pub mod Process
pub mod Run
pub mod Seen
pub mod Sound
pub mod Ran
pub mod Notebook
pub mod Guarded
