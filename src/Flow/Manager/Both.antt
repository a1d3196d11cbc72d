-- ===== src/Flow/Manager/Both.antt =====
-- A stream that contributes to connection flow control: both controllers.
use quic_go.Base.{
  ℕ, ◌+◌, ◌-◌, ◌^◌, ◌≤◌, ◌<◌, ◌≡◌, ◌≢◌, inl, inr, refl, arith, true, false, none, some, ltb, ◌==◌,
  if◌then◌else◌, Bool-cases, min, max,
}
use quic_go.Base.Maps.{find, assign, find-assign}
use quic_go.Protocol.{add64, sub64}
use quic_go.Flow.Controller.{
  ConnectionParameters, FlowController, get_send_flow_control_window, controller_add_bytes_sent,
  controller_send_window_size, controller_update_highest_received, increment_highest_received,
  check_flow_control_violation,
}
use quic_go.Flow.Controller.Windows.{send_window-respected}
use quic_go.Flow.Manager.{
  FlowControlManager, stream_flow_control_violation, connection_flow_control_violation, window_size,
  contributes, with_controller, on_connection, raise_highest, update_highest_received, add_bytes,
  add_bytes_sent, send_window_size, remaining_connection_window_size,
}

-- The controllers of a stream that contributes and of the connection.
pub record HasBoth (f : FlowControlManager) (id : ℕ) (c d : FlowController) : Type 0 where
  pub not_connection : id ≢ 0
  pub stream : find id f.stream_flow_controller ≡ some c
  pub connection : find 0 f.stream_flow_controller ≡ some d
  pub counted : find id f.contributes_to_connection_flow_control ≡ some true

-- Changing the controller of the stream, and then that of the connection.
both_assigned :
    (f : FlowControlManager) (id : ℕ) (c d c' d' : FlowController)
    → HasBoth f id c d
    → HasBoth (with_controller (with_controller f id c') 0 d') id c' d'
both_assigned f id c d c' d' h =
    let m = f.stream_flow_controller in
    let apart : (0 == id) ≡ false = ground (arith, h.not_connection) in
    let same : (id == id) ≡ true = ground arith in
    record {
      not_connection = h.not_connection;
      stream = rw (find-assign 0 id d' (assign id c' m), apart, find-assign id id c' m, same) refl;
      connection = find-assign 0 0 d' (assign id c' m);
      counted = h.counted;
    }

connection_after :
    (f : FlowControlManager) (id : ℕ) (c d c' : FlowController)
    → HasBoth f id c d
    → find 0 (assign id c' f.stream_flow_controller) ≡ some d
connection_after f id c d c' h =
    let apart : (id == 0) ≡ false = ground (arith, h.not_connection) in
    rw (find-assign id 0 c' f.stream_flow_controller, apart) h.connection

add_bytes-both :
    (add : FlowController → FlowController) (f : FlowControlManager) (id : ℕ) (c d : FlowController)
    → HasBoth f id c d
    → add_bytes add id f ≡ (with_controller (with_controller f id (add c)) 0 (add d), none)
add_bytes-both add f id c d h =
    rw
      (
        add_bytes,
        h.stream,
        contributes,
        h.counted,
        on_connection,
        connection_after f id c d (add c) h,
      )
      refl

-- The bytes sent are within the send window.
abbrev pub Within : ConnectionParameters → FlowController → Type 0
Within params c =
    (c.bytes_sent ≤ get_send_flow_control_window params c)
    × (get_send_flow_control_window params c < 2 ^ 64)

Within-after :
    (params : ConnectionParameters) (c : FlowController) (n : ℕ)
    → Within params c
    → n ≤ controller_send_window_size params c
    → Within params (controller_add_bytes_sent n c)
Within-after params c n v l = (
  send_window-respected params c n v.0 v.1 l,
  unfold controller_add_bytes_sent get_send_flow_control_window in v.1,
)

size_both :
    (params : ConnectionParameters) (f : FlowControlManager) (id size : ℕ) (c d : FlowController)
    → HasBoth f id c d
    → send_window_size params id f ≡ window_size size
    → size ≡ min (controller_send_window_size params c) (controller_send_window_size params d)
unfolding send_window_size remaining_connection_window_size
size_both params f id size c d h e =
    let k =
      rw (send_window_size, h.stream, h.counted, remaining_connection_window_size, h.connection) at
        e in
    cc

-- For a stream that contributes to connection flow control, where the bytes sent are within the send
-- windows of the stream and of the connection: if SendWindowSize returns a size, then AddBytesSent
-- with that many bytes or fewer returns no error, counts them for the stream and for the connection,
-- and both stay within their windows.
pub send_window_size-respected :
    (params : ConnectionParameters) (f : FlowControlManager) (id n size : ℕ) (c d : FlowController)
    → HasBoth f id c d
    → Within params c
    → Within params d
    → send_window_size params id f ≡ window_size size
    → n ≤ size
    → let r = add_bytes_sent id n f in
      let c' = controller_add_bytes_sent n c in
      let d' = controller_add_bytes_sent n d in
      (r.1 ≡ none) × HasBoth r.0 id c' d' × Within params c' × Within params d'
unfolding add_bytes_sent
send_window_size-respected params f id n size c d h v w e l =
    let add = controller_add_bytes_sent n in
    let k = size_both params f id size c d h e in
    rw (add_bytes-both add f id c d h) (
      refl,
      both_assigned f id c d (add c) (add d) h,
      Within-after params c n v (omega (arith, l, k)),
      Within-after params d n w (omega (arith, l, k)),
    )

one_assigned :
    (f : FlowControlManager) (id : ℕ) (c d c' : FlowController)
    → HasBoth f id c d
    → HasBoth (with_controller f id c') id c' d
one_assigned f id c d c' h =
    let same : (id == id) ≡ true = ground arith in
    record {
      not_connection = h.not_connection;
      stream = rw (find-assign id id c' f.stream_flow_controller, same) refl;
      connection = connection_after f id c d c' h;
      counted = h.counted;
    }

-- What UpdateHighestReceived of a controller does.
abbrev raised : FlowController → ℕ → FlowController
raised c byte_offset = record c { highest_received = max c.highest_received byte_offset }

abbrev new_bytes : FlowController → ℕ → ℕ
new_bytes c byte_offset = max c.highest_received byte_offset - c.highest_received

controller_update_highest_received_lem :
    (c : FlowController) (byte_offset : ℕ)
    → byte_offset < 2 ^ 64
    → controller_update_highest_received byte_offset c
      ≡ (raised c byte_offset, new_bytes c byte_offset)
unfolding controller_update_highest_received
controller_update_highest_received_lem c n l = elim (Bool-cases (ltb c.highest_received n)) [
  | inl e ↦
      let a : max c.highest_received n ≡ n = ground arith in
      let b : sub64 n c.highest_received ≡ n - c.highest_received = ground arith in
      rw (e, a, b) refl
  | inr e ↦
      let a : max c.highest_received n ≡ c.highest_received = ground arith in
      let b : c.highest_received - c.highest_received ≡ 0 = omega arith in rw (e, a, b) refl
]

-- UpdateHighestReceived for a stream that contributes to connection flow control, where no sum
-- overflows: the stream notes the larger of the offset and its highest one. If that is beyond its
-- window, the error for the stream is returned and the connection is left alone. Otherwise the bytes
-- that are new are counted for the connection, and its error is returned exactly when it is beyond
-- its window then.
pub update_highest_received-both :
    (f : FlowControlManager) (id byte_offset : ℕ) (c d : FlowController)
    → HasBoth f id c d
    → d.highest_received + byte_offset < 2 ^ 64
    → let r = update_highest_received id byte_offset f in
      let highest = max c.highest_received byte_offset in
      let total = d.highest_received + (highest - c.highest_received) in
      let c' = record c { highest_received = highest } in
      let violates = ltb c.receive_flow_control_window highest in
      HasBoth r.0 id c' (if violates then d else record d { highest_received = total })
      × (r.1 ≡ (
          if violates
          then some stream_flow_control_violation
          else if ltb d.receive_flow_control_window total
          then some connection_flow_control_violation
          else none))
unfolding update_highest_received raise_highest increment_highest_received
    check_flow_control_violation
update_highest_received-both f id byte_offset c d h l =
    let c' = raised c byte_offset in
    let total = d.highest_received + new_bytes c byte_offset in
    let sum : add64 d.highest_received (new_bytes c byte_offset) ≡ total = ground arith in
    rw
      (
        update_highest_received,
        h.stream,
        raise_highest,
        controller_update_highest_received_lem c byte_offset (omega arith),
        contributes,
        h.counted,
        on_connection,
        connection_after f id c d c' h,
        controller_update_highest_received_lem c byte_offset (omega arith),
        sum,
      )
      (elim (Bool-cases (ltb c.receive_flow_control_window (max c.highest_received byte_offset))) [
        | inl e ↦ rw e (one_assigned f id c d c' h, refl)
        | inr e ↦ rw e (both_assigned f id c d c' (record d { highest_received = total }) h, refl)
      ])
