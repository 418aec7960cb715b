-- ===== src/Sci.antt =====
-- The servers of the storage and identity service, internal/sci.
pub mod Kind
