-- ===== src/Util.antt =====
-- src/util: the chunk allocator and the validator.
pub mod ChunkAllocator
pub mod Validator
mod Examples
