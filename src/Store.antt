-- ===== src/Store.antt =====
-- internal/store/memory: the deterministic store.
pub mod Assoc
pub mod Rows
pub mod Claims
pub mod Outbox
pub mod Database
pub mod Page
pub mod Runs
pub mod Threads
pub mod Specs
pub mod Tasks
pub mod Workspaces
pub mod Artifacts
pub mod Integrations
pub mod Projects
pub mod Tenants
pub mod Audit
pub mod Events
pub mod Transactor
