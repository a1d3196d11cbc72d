-- ===== src/Flow/Controller/Windows.antt =====
-- The windows of one flow controller.
use quic_go.Base.{
  ℕ, ◌+◌, ◌/◌, ◌^◌, ◌≤◌, ◌<◌, ◌≡◌, inl, inr, refl, arith, Option, none, some, ltb, ◌==◌,
  if◌then◌else◌, Bool-cases,
}
use quic_go.Protocol.{sub64}
use quic_go.Flow.Controller.{
  ConnectionParameters, FlowController, get_send_flow_control_window, controller_add_bytes_sent,
  controller_send_window_size, maybe_adjust_window_increment, maybe_trigger_window_update,
}

-- What was read lies below the window, and nothing is near the end of uint64.
pub record IsSound (c : FlowController) : Type 0 where
  pub read : c.bytes_read ≤ c.receive_flow_control_window
  pub window : c.receive_flow_control_window < 2 ^ 63
  pub increment :
      c.receive_flow_control_window_increment ≤ c.max_receive_flow_control_window_increment
  pub maximum : c.max_receive_flow_control_window_increment < 2 ^ 62

-- The increment stays or doubles, up to its maximum.
adjusted :
    (rtt now : ℕ) (c : FlowController)
    → IsSound c
    → let inc = (maybe_adjust_window_increment rtt now c).receive_flow_control_window_increment in
      (c.receive_flow_control_window_increment ≤ inc)
      × (inc ≤ c.max_receive_flow_control_window_increment)
      × ((maybe_adjust_window_increment rtt now c).bytes_read ≡ c.bytes_read)
unfolding maybe_adjust_window_increment
adjusted rtt now c i = ground (arith, i.increment, i.maximum)

-- How the window stands after the call, with the offset that it returns.
pub record Moved (c c' : FlowController) (update : Option ℕ) : Type 0 where
  pub not_lower : c.receive_flow_control_window ≤ c'.receive_flow_control_window
  pub room :
      c'.receive_flow_control_window_increment / 2 + c'.bytes_read ≤ c'.receive_flow_control_window
  pub increment : c.receive_flow_control_window_increment ≤ c'.receive_flow_control_window_increment
  pub bounded :
      c'.receive_flow_control_window_increment ≤ c.max_receive_flow_control_window_increment
  pub same_read : c'.bytes_read ≡ c.bytes_read
  pub announced : update ≡ (
      if c.receive_flow_control_window == c'.receive_flow_control_window
      then none
      else some c'.receive_flow_control_window)

-- After MaybeTriggerWindowUpdate at least half of the increment is left of the receive window. The
-- window has never shrunk, and its new value is announced exactly when it has grown; the increment
-- has not shrunk and is within its maximum. What was read lies below the window, and the numbers are
-- far below 2^64.
pub maybe_trigger_window_update-Moved :
    (rtt now : ℕ) (c : FlowController)
    → IsSound c
    → let r = maybe_trigger_window_update rtt now c in Moved c r.0 r.1
unfolding maybe_trigger_window_update
maybe_trigger_window_update-Moved rtt now c i =
    let (up, most, same) = adjusted rtt now c i in
    let inc = c.receive_flow_control_window_increment in
    elim (Bool-cases (ltb (sub64 c.receive_flow_control_window c.bytes_read) (inc / 2))) [
      | inl e ↦
          let small : c.receive_flow_control_window < c.bytes_read + inc / 2 =
            ground (arith, i.read, i.window) in
          rw e (record {
            not_lower = omega (arith, small, i.increment, i.maximum, up, most, same, i.read);
            room = omega (arith, i.window, i.maximum, most, same, i.read);
            increment = up;
            bounded = most;
            same_read = same;
            announced =
                ground (arith, small, i.read, i.window, i.increment, i.maximum, up, most, same);
          })
      | inr e ↦ rw e (record {
        not_lower = omega arith;
        room = ground (arith, i.read, i.window);
        increment = omega arith;
        bounded = i.increment;
        same_read = refl;
        announced = ground arith;
      })
    ]

-- What SendWindowSize reports can be sent: after that many bytes or fewer, the bytes sent are at most
-- the send window, as before.
pub send_window-respected :
    (params : ConnectionParameters) (c : FlowController) (n : ℕ)
    → c.bytes_sent ≤ get_send_flow_control_window params c
    → get_send_flow_control_window params c < 2 ^ 64
    → n ≤ controller_send_window_size params c
    → (controller_add_bytes_sent n c).bytes_sent
      ≤ get_send_flow_control_window params (controller_add_bytes_sent n c)
unfolding controller_send_window_size controller_add_bytes_sent get_send_flow_control_window
send_window-respected params c n h l k = ground (arith, h, l, k)
