-- ===== src/Flow/Runs.antt =====
-- The flow control on concrete streams.
use quic_go.Base.{◌≡◌, refl, arith, true, false, [], ◌∷◌, none, some}
use quic_go.Base.Maps.{find}
use quic_go.Flow.Controller.{
  ConnectionParameters, FlowController, get_send_flow_control_window, controller_add_bytes_sent,
  controller_send_window_size, maybe_trigger_window_update,
}
use quic_go.Flow.Controller.Windows.{IsSound, Moved, maybe_trigger_window_update-Moved}
use quic_go.Flow.Manager.{
  FlowControlManager, stream_flow_control_violation, window_size, update_highest_received,
  add_bytes_sent, send_window_size, remaining_connection_window_size,
}
use quic_go.Flow.Manager.Both.{
  HasBoth, Within, send_window_size-respected, update_highest_received-both,
}

abbrev params : ConnectionParameters
params = record {
  send_stream_flow_control_window = 1000;
  send_connection_flow_control_window = 700;
  receive_stream_flow_control_window = 32768;
  receive_connection_flow_control_window = 49152;
}

-- A stream that has read 20000 bytes, with a window of 32768.
abbrev reading : FlowController
reading = record {
  stream_id = 5;
  bytes_sent = 0;
  send_flow_control_window = 0;
  last_window_update_time = 50;
  bytes_read = 20000;
  highest_received = 25000;
  receive_flow_control_window = 32768;
  receive_flow_control_window_increment = 32768;
  max_receive_flow_control_window_increment = 1_048_576;
}

reading-IsSound : IsSound reading
reading-IsSound = record {
  read = omega arith;
  window = omega arith;
  increment = omega arith;
  maximum = omega arith;
}

maybe_trigger_window_update-Moved_example :
    Moved reading
      (maybe_trigger_window_update 100 60 reading).0
      (maybe_trigger_window_update 100 60 reading).1
maybe_trigger_window_update-Moved_example =
    maybe_trigger_window_update-Moved 100 60 reading reading-IsSound

abbrev manager : FlowControlManager
manager = record {
  stream_flow_controller =
      (0, record reading { stream_id = 0; bytes_sent = 300 })
      ∷ (5, record reading { bytes_sent = 200 })
      ∷ [];
  contributes_to_connection_flow_control = (0, false) ∷ (5, true) ∷ [];
}

five-HasBoth :
    HasBoth manager 5
      (record reading { bytes_sent = 200 })
      (record reading { stream_id = 0; bytes_sent = 300 })
unfolding find
five-HasBoth = record {
  not_connection = λ e. omega (arith, e);
  stream = refl;
  connection = refl;
  counted = refl;
}

five-Within : Within params (record reading { bytes_sent = 200 })
unfolding get_send_flow_control_window
five-Within = (omega arith, omega arith)

connection-Within : Within params (record reading { stream_id = 0; bytes_sent = 300 })
unfolding get_send_flow_control_window
connection-Within = (omega arith, omega arith)

-- The connection leaves 400 bytes, the stream alone would leave 800.
window_of_five : send_window_size params 5 manager ≡ window_size 400
unfolding send_window_size remaining_connection_window_size controller_send_window_size
    get_send_flow_control_window find
window_of_five = refl

send_window_size-respected_example :
    ((add_bytes_sent 5 400 manager).1 ≡ none)
    × HasBoth
        (add_bytes_sent 5 400 manager).0
        5
        (controller_add_bytes_sent 400 (record reading { bytes_sent = 200 }))
        (controller_add_bytes_sent 400 (record reading { stream_id = 0; bytes_sent = 300 }))
    × Within params (controller_add_bytes_sent 400 (record reading { bytes_sent = 200 }))
    × Within params
        (controller_add_bytes_sent 400 (record reading { stream_id = 0; bytes_sent = 300 }))
send_window_size-respected_example =
    send_window_size-respected params manager 5 400 400 (record reading { bytes_sent = 200 })
      (record reading { stream_id = 0; bytes_sent = 300 }) five-HasBoth five-Within
      connection-Within window_of_five (omega arith)

-- An offset beyond the window of the stream.
update_highest_received-both_example :
    HasBoth
      (update_highest_received 5 40000 manager).0
      5
      (record reading { bytes_sent = 200; highest_received = 40000 })
      (record reading { stream_id = 0; bytes_sent = 300 })
    × ((update_highest_received 5 40000 manager).1 ≡ some stream_flow_control_violation)
update_highest_received-both_example =
    update_highest_received-both manager 5 40000 (record reading { bytes_sent = 200 })
      (record reading { stream_id = 0; bytes_sent = 300 }) five-HasBoth (omega arith)
