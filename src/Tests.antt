-- ===== src/Tests.antt =====
-- Concrete rows and requests, and the theorems applied to them.
pub mod Samples
pub mod Review
pub mod Users
pub mod Modify
pub mod Jobs
pub mod Accounts
pub mod Removal
pub mod Cores
pub mod Reports
pub mod NodeUsages
pub mod Rules
pub mod Synced
pub mod TemplateRules
pub mod Templates
pub mod Tokens
pub mod Hosts
pub mod Restarted
pub mod Connections
