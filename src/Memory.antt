-- ===== src/Memory.antt =====
-- src/memory: how texts are cut for the memory.
pub mod Chunker
