-- ===== src/Frames.antt =====
-- The package frames: one child for each group of frames.
pub mod Control
pub mod Closing
pub mod StopWaiting
pub mod Ack
pub mod StreamFrame
pub mod Kinds
