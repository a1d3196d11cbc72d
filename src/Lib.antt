-- ===== src/Lib.antt =====
-- quic-go, a QUIC server for the Google versions of the protocol: the transport core.
--
-- A packet comes in through session.go, which infers its number, unpacks it into frames, lets the
-- received packet handler note the number, and hands the frames to the streams of the streams map,
-- the flow control manager and the packet handlers. On the way out the session asks the sent packet
-- handler for retransmissions and for permission to send, the received packet handler for an ACK
-- frame, the flow control manager for window updates; the packet packer takes the frames, those of
-- the streams from the stream framer, until the packet is full. The parts:
--
-- - Wire (utils/utils.go, utils/float16.go): the little-endian integers, as readers of a list of
--   bytes that return a result or an error, and as writers that append to a list of bytes.
--   Wire/Codes has one law for all widths; Wire/Float has the 16-bit floating-point numbers,
--   Wire/Bounds what readers return.
-- - Protocol (protocol/): packet numbers, their inference from a truncated number and the choice of
--   their length; uint64 arithmetic with its wrap-around written out; shared constants.
-- - Frames (frames/): one module for each group of frames. `parse_x` is ParseX, `write_x` the
--   method Write with the buffer as an argument and the error as an Option, `min_length_x`
--   MinLength. ACK frames have their ranges, validation and block counts, and in Ack/Parse their
--   parser, whose loop over the blocks is `read_blocks` with `add_block` for one block; their Write
--   is not modelled. Kinds is the interface Frame.
-- - Received (ackhandler/received_packet_history.go, received_packet_handler.go): History keeps the
--   ranges that arrived and the numbers in them, Handler the calls of the session; `handle_packet`
--   is ReceivedPacket, `get_ack_frame` GetAckFrame, with `build_ack_frame` its inner part.
-- - Sending (ackhandler/sent_packet_handler.go, packet.go, stop_waiting_manager.go): Handler keeps
--   the packet history, the retransmission queue, the skipped numbers and the bytes in flight.
--   ReceivedAck is `received_ack`; its loop is `ack_loop` in AckLoop, which goes through packets
--   and ranges side by side as the source does; `Progress` is what the loop changes. The congestion
--   controller and the RTT statistics are an interface, the record SendAlgorithm, over a state that
--   the model never looks into. Ranges, Loop and Whole relate the loop to AcksPacket, Accounting
--   and Reach have the invariant of all calls, Timeouts the retransmission timeout.
-- - Streams/Sorter (stream_frame_sorter.go): Push, Pop and Head of the sorter over its gaps;
--   `place` is the loop of Push. Partition says that gaps, queue and read bytes share out the
--   stream, Reassembly that what is popped is the stream in order.
-- - Streams/Map (streams_map.go): the streams map, generic in the streams. `behind` is what the
--   slice of open streams leaves behind it in its array, which a loop over the slice still sees.
--   Iteration has its loops, whose callbacks work on the map and on a state of their own, and
--   garbageCollectStreams of the session.
-- - Streams/Stream (stream.go): the calls of a stream. A call that waits returns that it waits.
-- - Packets: Unpacker (packet_unpacker.go) reads the frames of a packet, the AEAD an argument;
--   Framer (stream_framer.go) hands out STREAM frames, its loops those of the streams map; Packer
--   (packet_packer.go) is composeNextPacket, with the tests of packPacket on its result.
-- - Session (session.go): `handle_packet_impl` is handlePacketImpl, with a handler for each frame
--   as in the source, over the states of the components above. The callback for a new stream is
--   left out, as is the address of the peer, which no modelled part reads.
-- - Flow (flowcontrol/): Controller is the flow controller of a stream or of the connection,
--   Manager the manager of all; the methods of the two that share a name begin with `controller_`
--   in Controller.
-- - Header: Numbers is the generator of packet numbers (packet_number_generator.go), its random
--   numbers arguments; PublicHeader is public_header.go.
-- - Base: names of the libraries, Boolean tests, list lemmas, results, bit operations, and Go maps
--   (Base/Maps) as association lists.
--
-- Conventions: numbers are natural numbers with their width written out where the source can leave
-- it; a time is a number and 0 the zero time.Time; time.Now() is an argument, one per call; a
-- linked list is a list, a map an association list with each key at most once; an error return is a
-- value beside the new state, and so are a nil pointer and an index out of range where the source
-- could meet them. Loops recurse on their list or on the number of their rounds, except for two
-- with fuel: the loop of the unpacker has one more than the packet has bytes, and each round reads
-- at least one of them; Read of a stream takes its fuel as an argument, a round for each queued
-- frame and two more.
--
-- Not modelled: the cryptography (crypto/), handshake/ but for the getters that flow control asks,
-- h2quic/ and example/ (glue to net/http), server.go with its sockets and buffers, the run loop of
-- session.go with its channels and timers, sending in session.go, the writing and sealing of
-- packets in packPacket, Write of ACK frames, public_reset.go, the algorithms of congestion/,
-- protocol/version.go but for the number of a version tag, logging, generated linked lists and
-- string tables. Locks are left out: a call is one step, and what runs between two calls is a
-- sequence of calls.
pub mod Base
pub mod Wire
pub mod Protocol
pub mod Frames
pub mod Received
pub mod Header
pub mod Packets
pub mod Sending
pub mod Flow
pub mod Streams
pub mod Session
