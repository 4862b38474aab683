-- ===== src/Common.antt =====
-- What both versions of the protocol use: src/common.
pub mod Buf
pub mod BufList
pub mod Rewind
pub mod Watch
pub mod Drain
