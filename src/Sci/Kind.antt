-- ===== src/Sci/Kind.antt =====
-- internal/sci/kind: storage in the directories of the node of a kind cluster.
pub mod Disk
pub mod Server
pub mod Paths
pub mod Stored
pub mod Contract
