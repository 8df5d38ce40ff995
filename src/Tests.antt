-- ===== src/Tests.antt =====
-- Runs of the definitions on concrete inputs.
pub mod Hosts
pub mod Seeding
pub mod Vpc
pub mod Accounts
pub mod Guard
pub mod Orders
pub mod Placement
pub mod Pipeline
pub mod Contracts
pub mod Incidents
pub mod Clusters
pub mod Services
pub mod Tenants
