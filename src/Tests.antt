-- ===== src/Tests.antt =====
-- A cluster with one object of each sort, and the library calls as concrete functions: the inputs of
-- the tests and of the examples of the theorems.
pub mod Cluster
mod Reconcilers
mod Builds
mod Parts
mod Arrivals
mod Watches
mod Uploads
mod Screens
mod Syncing
mod Running
