-- ===== src/Header.antt =====
-- The unencrypted part of a packet: the packet numbers given out, and the public header.
pub mod Numbers
pub mod PublicHeader
mod Runs
