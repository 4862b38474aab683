-- ===== src/H2.antt =====
-- What src/proto/h2 adds to the h2 crate.
pub mod Ping
