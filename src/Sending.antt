-- ===== src/Sending.antt =====
-- Sent packets: ackhandler/sent_packet_handler.go, packet.go and stop_waiting_manager.go.
pub mod StopWaiting
pub mod Packet
pub mod AckLoop
pub mod Handler
