-- ===== src/Domain.antt =====
-- internal/domain.
pub mod Errors
pub mod States
pub mod Ids
pub mod RunStatus
pub mod TaskStatus
pub mod ThreadStatus
pub mod WorkspaceStatus
pub mod ConnectionStatus
pub mod SpecStatus
pub mod ClaimStatus
pub mod DeliveryStatus
pub mod Task
pub mod Spec
pub mod Artifact
pub mod Report
pub mod Run
pub mod Thread
pub mod Workspace
pub mod Connection
pub mod Tenant
pub mod Budget
pub mod Claim
pub mod Audit
pub mod Event
pub mod StatusText
