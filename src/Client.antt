-- ===== src/Client.antt =====
-- internal/client: what the command line and the terminal UI use to upload a build context, and to
-- find the notebook of an object.
pub mod Objects
pub mod Tarball
pub mod Upload
pub mod Delivered
pub mod Waiting
pub mod Notebook
pub mod Sync
pub mod Reported
pub mod Mirror
pub mod Tools
pub mod Installed
