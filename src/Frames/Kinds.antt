-- ===== src/Frames/Kinds.antt =====
-- frames/frame.go: the interface Frame, as the frames that implement it.
use quic_go.Frames.Control.{WindowUpdateFrame, RstStreamFrame, BlockedFrame, PingFrame}
use quic_go.Frames.Closing.{ConnectionCloseFrame, GoawayFrame}
use quic_go.Frames.StopWaiting.{StopWaitingFrame}
use quic_go.Frames.Ack.{AckFrame}
use quic_go.Frames.StreamFrame.{StreamFrame}

pub data Frame : Type 0 where
  stream_frame : StreamFrame → Frame
  ack_frame : AckFrame → Frame
  stop_waiting_frame : StopWaitingFrame → Frame
  rst_stream_frame : RstStreamFrame → Frame
  connection_close_frame : ConnectionCloseFrame → Frame
  goaway_frame : GoawayFrame → Frame
  window_update_frame : WindowUpdateFrame → Frame
  blocked_frame : BlockedFrame → Frame
  ping_frame : PingFrame → Frame
