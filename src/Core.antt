-- ===== src/Core.antt =====
-- include/protobluff/core and src/core: the low-level encoder and decoder.
pub mod Types
pub mod Varint
pub mod Memory
pub mod Heap
pub mod Buffer
pub mod Descriptor
pub mod Stream
pub mod Text
pub mod Encoder
pub mod Decoder
mod Examples
