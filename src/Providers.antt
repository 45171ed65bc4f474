-- ===== src/Providers.antt =====
-- src/providers: what stands around the calls of language models.
pub mod Reliable
