-- ===== src/Channels.antt =====
-- src/channels: who may write to the agent, how a channel is kept running, and how one is made.
pub mod Allowlist
pub mod Supervisor
pub mod PluginRegistry
