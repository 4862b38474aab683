-- ===== src/H1.antt =====
-- src/proto/h1: the HTTP/1 side of the crate.
pub mod MemRead
pub mod Decode
pub mod Encode
pub mod Error
pub mod Conn
pub mod Role
pub mod Io
pub mod Dispatch
