-- ===== src/Flow/Manager.antt =====
-- flowcontrol/flow_control_manager.go. The controllers are behind pointers that only the map holds:
-- a change of one is an assignment to its key. A key that is missing from
-- contributesToConnectionFlowControl reads as false, a missing controller as a nil pointer.
pub mod Both
use quic_go.Base.{ℕ, Bool, true, false, List, [], ◌∷◌, Option, none, some, min, if◌then◌else◌}
use quic_go.Base.Maps.{find, assign, remove}
use quic_go.Flow.Controller.{
  ConnectionParameters, FlowController, new_flow_controller, controller_add_bytes_sent,
  update_send_window, controller_send_window_size, controller_update_highest_received,
  increment_highest_received, controller_add_bytes_read, maybe_trigger_window_update,
  check_flow_control_violation,
}

pub record FlowControlManager : Type 0 where
  pub stream_flow_controller : List (ℕ × FlowController)
  pub contributes_to_connection_flow_control : List (ℕ × Bool)

-- The errors of the manager, and the use of a nil pointer, which is a panic.
pub data FlowError : Type 0 where
  stream_flow_control_violation connection_flow_control_violation : FlowError
  error_map_access nil_pointer : FlowError

pub record WindowUpdate : Type 0 where
  pub stream_id : ℕ
  pub offset : ℕ

unfoldable pub new_flow_control_manager : ConnectionParameters → FlowControlManager
unfolding new_flow_controller
new_flow_control_manager params = record {
  stream_flow_controller = (0, new_flow_controller params 0) ∷ [];
  contributes_to_connection_flow_control = (0, false) ∷ [];
}

abbrev pub contributes : FlowControlManager → ℕ → Bool
contributes f id = elim (find id f.contributes_to_connection_flow_control) [
  | none ↦ false
  | some b ↦ b
]

abbrev pub with_controller : FlowControlManager → ℕ → FlowController → FlowControlManager
with_controller f id c = record f { stream_flow_controller = assign id c f.stream_flow_controller }

unfoldable pub new_stream :
    ConnectionParameters → ℕ → Bool → FlowControlManager → FlowControlManager
new_stream params id contributes_to_connection f = elim (find id f.stream_flow_controller) [
  | some _ ↦ f
  | none ↦ record {
    stream_flow_controller = assign id (new_flow_controller params id) f.stream_flow_controller;
    contributes_to_connection_flow_control =
        assign id contributes_to_connection f.contributes_to_connection_flow_control;
  }
]

unfoldable pub remove_stream : ℕ → FlowControlManager → FlowControlManager
remove_stream id f = record {
  stream_flow_controller = remove id f.stream_flow_controller;
  contributes_to_connection_flow_control = remove id f.contributes_to_connection_flow_control;
}

-- A method that changes the controller of the connection.
abbrev pub on_connection :
    (FlowController → FlowController × Option FlowError)
    → FlowControlManager
    → FlowControlManager × Option FlowError
on_connection change f = elim (find 0 f.stream_flow_controller) [
  | none ↦ (f, some nil_pointer)
  | some c ↦ (with_controller f 0 (change c).0, (change c).1)
]

-- UpdateHighestReceived behind getFlowController: the controller of the stream, then that of the
-- connection.
unfoldable pub raise_highest :
    ℕ → ℕ → FlowControlManager → FlowController → FlowControlManager × Option FlowError
raise_highest id byte_offset f c =
    let r = controller_update_highest_received byte_offset c in
    let f1 = with_controller f id r.0 in
    let connection =
      on_connection
        (λ d.
          let d1 = increment_highest_received r.1 d in
          (
            d1,
            if check_flow_control_violation d1
                then some connection_flow_control_violation
                else none,
          ))
        f1 in
    if check_flow_control_violation r.0
    then (f1, some stream_flow_control_violation)
    else if contributes f id
    then connection
    else (f1, none)

unfoldable pub update_highest_received :
    ℕ → ℕ → FlowControlManager → FlowControlManager × Option FlowError
unfolding raise_highest
update_highest_received id byte_offset f = elim (find id f.stream_flow_controller) [
  | none ↦ (f, some error_map_access)
  | some c ↦ raise_highest id byte_offset f c
]

-- AddBytesRead and AddBytesSent: `add` on the controller of the stream, then on that of the
-- connection.
abbrev pub add_bytes :
    (FlowController → FlowController)
    → ℕ
    → FlowControlManager
    → FlowControlManager × Option FlowError
add_bytes add id f = elim (find id f.stream_flow_controller) [
  | none ↦ (f, some error_map_access)
  | some c ↦
      let f1 = with_controller f id (add c) in
      if contributes f id then on_connection (λ d. (add d, none)) f1 else (f1, none)
]

unfoldable pub add_bytes_read : ℕ → ℕ → FlowControlManager → FlowControlManager × Option FlowError
add_bytes_read id n f = add_bytes (controller_add_bytes_read n) id f

unfoldable pub add_bytes_sent : ℕ → ℕ → FlowControlManager → FlowControlManager × Option FlowError
add_bytes_sent id n f = add_bytes (controller_add_bytes_sent n) id f

-- The loop of GetWindowUpdates over the controllers, in the order that the map gives them.
unfoldable pub window_updates :
    ℕ → ℕ → List (ℕ × FlowController) → List (ℕ × FlowController) × List WindowUpdate
window_updates rtt now [] = ([], [])
window_updates rtt now ((id, c) ∷ m) =
    let rest = window_updates rtt now m in
    let (c', update) = maybe_trigger_window_update rtt now c in
    elim update [
      | none ↦ ((id, c') ∷ rest.0, rest.1)
      | some offset ↦ ((id, c') ∷ rest.0, record { stream_id = id; offset = offset } ∷ rest.1)
    ]

unfoldable pub get_window_updates :
    ℕ → ℕ → FlowControlManager → FlowControlManager × List WindowUpdate
unfolding window_updates
get_window_updates rtt now f =
    let r = window_updates rtt now f.stream_flow_controller in
    (record f { stream_flow_controller = r.0 }, r.1)

unfoldable pub remaining_connection_window_size :
    ConnectionParameters → FlowControlManager → Option ℕ
remaining_connection_window_size params f = elim (find 0 f.stream_flow_controller) [
  | none ↦ none
  | some c ↦ some (controller_send_window_size params c)
]

pub data WindowSize : Type 0 where
  window_size : ℕ → WindowSize
  window_error : FlowError → WindowSize

unfoldable pub send_window_size : ConnectionParameters → ℕ → FlowControlManager → WindowSize
unfolding remaining_connection_window_size
send_window_size params id f = elim (find id f.stream_flow_controller) [
  | none ↦ window_error error_map_access
  | some c ↦
      let size = controller_send_window_size params c in
      elim (find id f.contributes_to_connection_flow_control) [
        | none ↦ window_error error_map_access
        | some false ↦ window_size size
        | some true ↦ elim (remaining_connection_window_size params f) [
          | none ↦ window_error nil_pointer
          | some remaining ↦ window_size (min size remaining)
        ]
      ]
]

unfoldable pub update_window : ℕ → ℕ → FlowControlManager → FlowControlManager × Option Bool
update_window id offset f = elim (find id f.stream_flow_controller) [
  | none ↦ (f, none)
  | some c ↦ let r = update_send_window offset c in (with_controller f id r.0, some r.1)
]
