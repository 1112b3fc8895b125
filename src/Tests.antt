-- ===== src/Tests.antt =====
-- Concrete runs: a socket in memory, and each theorem at an input.
pub mod Loopback
mod Data
pub mod Opening
mod Client
mod Compressing
mod Connecting
