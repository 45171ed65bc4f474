-- ===== src/Sessions.antt =====
-- src/sessions: session keys, states and transcripts with their store, and the send rate limit.
pub mod Key
pub mod SendPolicy
pub mod State
pub mod Transcript
pub mod Store
