-- ===== src/Program.antt =====
-- Controller code as interaction programs: a program makes calls of the Kubernetes API and of the
-- SCI service, whose answers the environment chooses, and ends. `Program/Calls.antt` lists the
-- calls, `Program/Run.antt` runs a program against an environment, `Program/Always.antt` reasons
-- about all environments at once.
mod Calls
mod Core
mod Run
pub mod Always
pub mod Fallible
pub mod IfOk
pub mod Latest
pub mod Only
pub mod Reaches
pub use Calls.*
unfoldable pub use Core.*
unfoldable pub use Run.*
