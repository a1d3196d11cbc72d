-- ===== src/Received.antt =====
-- ackhandler/received_packet_handler.go and received_packet_history.go: which packets were received,
-- as a set of numbers and as a list of ranges, and the ACK frame made of them.
pub mod History
pub mod Handler
