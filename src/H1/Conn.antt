-- ===== src/H1/Conn.antt =====
-- src/proto/h1/conn.rs: the state of one HTTP/1 connection and what moves it. State holds the
-- flags, Transport the interface to the buffered I/O, Read and Write the operations.
pub mod State
pub mod Transport
pub mod Write
pub mod Read
pub mod Later
pub mod LaterRead
pub mod Steps
