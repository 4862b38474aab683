-- ===== src/Client.antt =====
-- The client's own parts: src/client.
pub mod Channel
pub mod Sends
