-- ===== src/Client.antt =====
-- The client mode: include/flashptp/client and src/flashptp/client.
pub mod Sequence
pub mod Server
pub mod Schedule
pub mod Request
pub mod Mode
