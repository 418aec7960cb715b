-- ===== src/Api.antt =====
-- api/v1: the four custom resources, their specs and statuses, and the accessor methods through
-- which the controllers handle them by an interface.
mod Types
mod Access
pub mod Reason
pub use Types.*
unfoldable pub use Access.*
