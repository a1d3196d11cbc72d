-- ===== src/Flow/Controller.antt =====
-- flowcontrol/flow_controller.go. A ByteCount is a uint64. What the controller asks of the connection
-- parameters and of the RTT statistics are arguments, and so is `time.Now()`; 0 is the zero time.
pub mod Windows
use quic_go.Base.{
  ℕ, ◌+◌, ◌*◌, ◌/◌, ◌%◌, ◌^◌, Bool, true, false, not, Option, none, some, ltb, ◌==◌, if◌then◌else◌,
  min,
}
use quic_go.Protocol.{add64, sub64, gt_signed}

-- The getters for the windows of the ConnectionParametersManager.
pub record ConnectionParameters : Type 0 where
  pub send_stream_flow_control_window : ℕ
  pub send_connection_flow_control_window : ℕ
  pub receive_stream_flow_control_window : ℕ
  pub receive_connection_flow_control_window : ℕ

-- MaxReceiveConnectionFlowControlWindow, MaxReceiveStreamFlowControlWindow
abbrev pub max_receive_connection_flow_control_window : ℕ
max_receive_connection_flow_control_window = 1_572_864

abbrev pub max_receive_stream_flow_control_window : ℕ
max_receive_stream_flow_control_window = 1_048_576

pub record FlowController : Type 0 where
  pub stream_id : ℕ
  pub bytes_sent : ℕ
  pub send_flow_control_window : ℕ
  pub last_window_update_time : ℕ
  pub bytes_read : ℕ
  pub highest_received : ℕ
  pub receive_flow_control_window : ℕ
  pub receive_flow_control_window_increment : ℕ
  pub max_receive_flow_control_window_increment : ℕ

unfoldable pub new_flow_controller : ConnectionParameters → ℕ → FlowController
new_flow_controller params stream_id =
    let window =
      if stream_id == 0
      then params.receive_connection_flow_control_window
      else params.receive_stream_flow_control_window in
    record {
      stream_id = stream_id;
      bytes_sent = 0;
      send_flow_control_window = 0;
      last_window_update_time = 0;
      bytes_read = 0;
      highest_received = 0;
      receive_flow_control_window = window;
      receive_flow_control_window_increment = window;
      max_receive_flow_control_window_increment =
          if stream_id == 0
          then max_receive_connection_flow_control_window
          else max_receive_stream_flow_control_window;
    }

unfoldable pub get_send_flow_control_window : ConnectionParameters → FlowController → ℕ
get_send_flow_control_window params c =
    if c.send_flow_control_window == 0
    then if c.stream_id == 0
      then params.send_connection_flow_control_window
      else params.send_stream_flow_control_window
    else c.send_flow_control_window

unfoldable pub controller_add_bytes_sent : ℕ → FlowController → FlowController
controller_add_bytes_sent n c = record c { bytes_sent = add64 c.bytes_sent n }

unfoldable pub update_send_window : ℕ → FlowController → FlowController × Bool
update_send_window new_offset c =
    if ltb c.send_flow_control_window new_offset
    then (record c { send_flow_control_window = new_offset }, true)
    else (c, false)

unfoldable pub controller_send_window_size : ConnectionParameters → FlowController → ℕ
controller_send_window_size params c =
    let window = get_send_flow_control_window params c in
    if ltb window c.bytes_sent then 0 else sub64 window c.bytes_sent

-- UpdateHighestReceived, with the increment that it returns.
unfoldable pub controller_update_highest_received : ℕ → FlowController → FlowController × ℕ
controller_update_highest_received byte_offset c =
    if ltb c.highest_received byte_offset
    then (record c { highest_received = byte_offset }, sub64 byte_offset c.highest_received)
    else (c, 0)

unfoldable pub increment_highest_received : ℕ → FlowController → FlowController
increment_highest_received increment c = record c {
  highest_received = add64 c.highest_received increment;
}

unfoldable pub controller_add_bytes_read : ℕ → FlowController → FlowController
controller_add_bytes_read n c = record c { bytes_read = add64 c.bytes_read n }

-- The smoothed RTT and the time since the last update are durations, int64 by their bit patterns.
unfoldable pub maybe_adjust_window_increment : ℕ → ℕ → FlowController → FlowController
maybe_adjust_window_increment rtt now c =
    let since_last_window_update = sub64 now c.last_window_update_time in
    if c.last_window_update_time == 0
    then c
    else if rtt == 0
    then c
    else if not (gt_signed (2 * rtt % 2 ^ 64) since_last_window_update)
    then c
    else record c {
      receive_flow_control_window_increment =
          min (2 * c.receive_flow_control_window_increment % 2 ^ 64)
            c.max_receive_flow_control_window_increment;
    }

unfoldable pub maybe_trigger_window_update : ℕ → ℕ → FlowController → FlowController × Option ℕ
maybe_trigger_window_update rtt now c =
    let diff = sub64 c.receive_flow_control_window c.bytes_read in
    let c1 = maybe_adjust_window_increment rtt now c in
    let window = add64 c1.bytes_read c1.receive_flow_control_window_increment in
    if ltb diff (c.receive_flow_control_window_increment / 2)
    then (
      record c1 { last_window_update_time = now; receive_flow_control_window = window },
      some window,
    )
    else (c, none)

unfoldable pub check_flow_control_violation : FlowController → Bool
check_flow_control_violation c = ltb c.receive_flow_control_window c.highest_received
