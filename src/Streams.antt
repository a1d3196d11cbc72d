-- ===== src/Streams.antt =====
-- Streams: stream_frame_sorter.go, streams_map.go and stream.go.
pub mod Sorter
pub mod Map
pub mod Stream
pub mod Iteration
