-- ===== src/H1/Dispatch.antt =====
-- src/proto/h1/dispatch.rs: what drives an HTTP/1 connection. Parts has the interfaces between a dispatcher and what it
-- brings together, Read, Write and Poll its operations.
pub mod Parts
pub mod Read
pub mod Write
pub mod Poll
pub mod Runs
pub mod ReadRuns
pub mod WriteRuns
pub mod PollRuns
pub mod Client
pub mod Server
pub mod Line
pub mod ClientRuns
pub mod Told
pub mod ServerRuns
pub mod Graceful
