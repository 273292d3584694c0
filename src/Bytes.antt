-- ===== src/Bytes.antt =====
-- Byte buffers: numbers as big-endian bytes (`to_be_bytes`, `from_be_bytes` of std), and the
-- calls of the `bytes` crate, which are a parameter.
pub mod BigEndian
pub mod Buffer
pub mod Reads
pub mod Utf8
