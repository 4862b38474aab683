-- ===== src/Examples.antt =====
-- Concrete runs: what the theorems say of given inputs.
mod Readers
mod Bodies
mod Conns
mod Heads
mod Pools
mod Replies
mod Writers
mod Pings
mod Dispatches
mod Streams
mod Skips
mod Drains
