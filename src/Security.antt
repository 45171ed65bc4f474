-- ===== src/Security.antt =====
-- src/security: what the agent may run, how often, and who says so.
pub mod ActionTracker
pub mod Pairing
pub mod Glob
pub mod Approval
pub mod ToolPolicy
pub mod Policy
pub mod ExternalContent
