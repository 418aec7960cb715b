-- ===== src/Controller.antt =====
-- internal/controller: the reconcilers of the four resources and what they share.
pub mod Status
pub mod Env
pub mod Params
pub mod ServiceAccounts
pub mod Shared
pub mod Build
pub mod Workload
pub mod Models
pub mod Datasets
pub mod Servers
pub mod Notebooks
pub mod Sorts
pub mod Outcome
pub mod Needs
pub mod Accounts
pub mod Reports
pub mod Configured
pub mod Willing
pub mod Watches
pub mod Woken
pub mod Literals
