-- ===== src/Packets.antt =====
-- Packets: what is unpacked, and how frames are packed.
pub mod Unpacker
pub mod Framer
pub mod Packer
