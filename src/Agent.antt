-- ===== src/Agent.antt =====
-- src/agent: the queue of messages for the agent, the calls in a streamed text, and their execution.
pub mod MessageQueue
pub mod ToolExecutor
pub mod StreamParser
