-- ===== src/Received/Handler/Session.antt =====
-- The order in which the session calls the handler: a STOP_WAITING frame comes in a packet that was
-- handled just before, so its LeastUnacked is at most the largest packet number observed.
use quic_go.Base.{
  ℕ, ◌^◌, ◌≤◌, ◌<◌, ◌≡◌, ◌≢◌, ◌⊎◌, inl, inr, refl, arith, Bool, false, List, [], ◌∷◌, none, ltb,
  if◌then◌else◌,
}
use quic_go.Frames.StopWaiting.{StopWaitingFrame}
use quic_go.Received.History.{
  PacketInterval, add_to_ranges, merge, delete_ranges, received_packet, delete_below, new_history,
}
use quic_go.Received.History.Ranges.{Separate, Bounded, add_to_ranges_cases}
use quic_go.Received.History.Deletions.{delete_cases}
use quic_go.Received.History.Sync.{IsSync, new_history-IsSync}
use quic_go.Received.Handler.{
  Handler, Event, packet, stop_waiting, ack, step, handle_packet, received_stop_waiting, panics,
  build_ack_frame, get_ack_frame, new_handler,
}
use quic_go.Received.Handler.Once.{step-Keeps}
use quic_go.Received.Handler.Acks.{Top, build-frame_of}

Top-merge :
    (el : PacketInterval) (rest : List PacketInterval) (n : ℕ) → el.end ≡ n → Top (merge el rest) n
unfolding merge
Top-merge el [] n h = h
Top-merge el (prev ∷ more) n h = ground arith

abbrev larger : ℕ → ℕ → ℕ
larger n p = if ltb n p then p else n

Top-add_to_ranges :
    (p : ℕ) (rs : List PacketInterval) (n : ℕ)
    → 0 < p
    → p < 2 ^ 63
    → Bounded rs
    → Separate rs
    → Top rs n
    → Top (add_to_ranges p rs) (larger n p)
Top-add_to_ranges p [] n h0 h b s t = unfold add_to_ranges in ground arith
Top-add_to_ranges p (el ∷ rest) n h0 h b s t = elim (add_to_ranges_cases p el rest h0 h b s) [
  | inl (lo, hi, e) ↦ rw e (ground arith)
  | inr (inl (u, e)) ↦ rw e (Top-merge (record el { end = p }) rest _ (ground arith))
  | inr (inr (inl (u, e))) ↦ rw e (Top-merge (record el { start = p }) rest _ (ground arith))
  | inr (inr (inr (inl (u, e)))) ↦ rw e (ground arith)
  | inr (inr (inr (inr (u, e)))) ↦ rw e (ground arith)
]

Top-delete_ranges :
    (lu : ℕ) (rs : List PacketInterval) (qs : List ℕ) (n : ℕ)
    → Separate rs
    → Top rs n
    → lu ≤ n
    → Top (delete_ranges lu rs qs).kept n
Top-delete_ranges lu [] qs n s t h = unfold delete_ranges in t
Top-delete_ranges lu (el ∷ rest) qs n s t h = elim (delete_cases lu el rest qs s) [
  | inl (_, k, _) ↦ rw k t
  | inr (inl (_, _, k, _)) ↦ rw k t
  | inr (inr (a, _, _)) ↦ absurd (omega arith)
]

-- The invariant of the handler under the session's calls.
pub record IsReady (h : Handler) : Type 0 where
  pub sync : IsSync h.history
  pub top : Top h.history.ranges h.largest_observed
  pub started : (h.state_changed ≡ false) ⊎ (0 < h.largest_observed)

abbrev pub Allowed : Handler → Event → Type 0
Allowed h (packet pn now) = pn < 2 ^ 63
Allowed h (stop_waiting f) = (f.least_unacked < 2 ^ 63) × (f.least_unacked ≤ h.largest_observed)
Allowed h (ack dequeue) = Unit {0}

-- The session's calls, from a handler on.
pub data Reach (h : Handler) : Handler → Type 0 where
  here : Reach h h
  next : {g : Handler} → Reach h g → (e : Event) → Allowed g e → Reach h (step g e)

-- Handling a packet leaves the handler as it was, or adds the packet to the ranges.
packet_effect :
    (h : Handler) (pn now : ℕ)
    → ((handle_packet h pn now).0 ≡ h)
      ⊎ ((0 < pn)
          × ((handle_packet h pn now).0.history.ranges ≡ add_to_ranges pn h.history.ranges)
          × ((handle_packet h pn now).0.largest_observed ≡ larger h.largest_observed pn))
unfolding handle_packet received_packet
packet_effect h pn now = ground arith

larger_pos : (n p : ℕ) → 0 < p → 0 < larger n p
larger_pos n p h = ground arith

packet-IsReady :
    (h : Handler) (pn now : ℕ) → pn < 2 ^ 63 → IsReady h → IsReady (handle_packet h pn now).0
packet-IsReady h pn now hp r = elim (packet_effect h pn now) [
  | inl e ↦ rw e r
  | inr (pos, e, l) ↦ record {
    sync = (unfold step in (step-Keeps h (packet pn now) hp r.sync).sync);
    top =
        rw (e, l)
          (Top-add_to_ranges pn h.history.ranges h.largest_observed pos hp r.sync.bounded
            r.sync.separate r.top);
    started = inr (rw l (larger_pos h.largest_observed pn pos));
  }
]

stop_waiting_effect :
    (h : Handler) (f : StopWaitingFrame)
    → (received_stop_waiting h f ≡ h)
      ⊎ ((f.least_unacked ≢ 0)
          × ((received_stop_waiting h f).history ≡ delete_below h.history f.least_unacked)
          × ((received_stop_waiting h f).largest_observed ≡ h.largest_observed)
          × ((received_stop_waiting h f).state_changed ≡ h.state_changed))
unfolding received_stop_waiting
stop_waiting_effect h f = ground arith

stop_waiting-IsReady :
    (h : Handler) (f : StopWaitingFrame)
    → Allowed h (stop_waiting f)
    → IsReady h
    → IsReady (received_stop_waiting h f)
stop_waiting-IsReady h f a r = elim (stop_waiting_effect h f) [
  | inl e ↦ rw e r
  | inr (_, e, l, c) ↦ record {
    sync = (unfold step in (step-Keeps h (stop_waiting f) a.0 r.sync).sync);
    top =
        rw (e, l)
          (unfold delete_below in
            Top-delete_ranges f.least_unacked h.history.ranges h.history.numbers h.largest_observed
              r.sync.separate r.top a.1);
    started = rw (l, c) r.started;
  }
]

-- Asking for a frame changes neither the history nor what was observed.
ack_effect :
    (h : Handler) (dequeue : Bool)
    → let g = (get_ack_frame h dequeue).0 in
      (g.history ≡ h.history)
      × (g.largest_observed ≡ h.largest_observed)
      × ((g.state_changed ≡ h.state_changed) ⊎ (g.state_changed ≡ false))
unfolding get_ack_frame
ack_effect h dequeue = ground arith

still_started :
    (a b : Bool) (n : ℕ) → (a ≡ b) ⊎ (a ≡ false) → (b ≡ false) ⊎ (0 < n) → (a ≡ false) ⊎ (0 < n)
still_started a b n h k = ground arith

ack-IsReady : (h : Handler) (dequeue : Bool) → IsReady h → IsReady (get_ack_frame h dequeue).0
ack-IsReady h dequeue r =
    let (e, l, c) = ack_effect h dequeue in
    record {
      sync = rw e r.sync;
      top = rw (e, l) r.top;
      started = rw l (still_started _ h.state_changed h.largest_observed c r.started);
    }

step-IsReady : (h : Handler) (e : Event) → Allowed h e → IsReady h → IsReady (step h e)
unfolding step
step-IsReady h (packet pn now) a r = packet-IsReady h pn now a r
step-IsReady h (stop_waiting f) a r = stop_waiting-IsReady h f a r
step-IsReady h (ack dequeue) a r = ack-IsReady h dequeue r

Reach-IsReady : {h g : Handler} → IsReady h → Reach h g → IsReady g
Reach-IsReady r here = r
Reach-IsReady r (next reach e a) = step-IsReady _ e a (Reach-IsReady r reach)

ready_cases :
    (h : Handler) (rs : List PacketInterval)
    → h.history.ranges ≡ rs
    → Top rs h.largest_observed
    → (h.state_changed ≡ false) ⊎ (0 < h.largest_observed)
    → (h.state_changed ≡ false) ⊎ (build_ack_frame h ≢ none)
ready_cases h [] e t (inl s) = inl s
ready_cases h [] e t (inr s) = absurd (omega arith)
ready_cases h (el ∷ rs) e t s = inr (λ n. cc (build-frame_of h el rs e))

answers :
    (h : Handler) (dequeue : Bool)
    → (h.state_changed ≡ false) ⊎ (build_ack_frame h ≢ none)
    → (get_ack_frame h dequeue).1 ≢ panics
unfolding get_ack_frame
answers h dequeue (inl s) = ground arith
answers h dequeue (inr b) = ground arith

-- GetAckFrame never indexes an empty list of ranges, whatever packets, STOP_WAITING frames and
-- calls of GetAckFrame came before: packet numbers and LeastUnacked are below 2 ^ 63, and the
-- LeastUnacked of a STOP_WAITING frame is at most the largest packet number observed by then.
pub get_ack_frame-ne-panics :
    {h : Handler} (dequeue : Bool) → Reach new_handler h → (get_ack_frame h dequeue).1 ≢ panics
get_ack_frame-ne-panics {h} dequeue reach =
    let r = Reach-IsReady start reach in
    answers h dequeue (ready_cases h h.history.ranges refl r.top r.started)
  where
    start : IsReady new_handler
    start =
        unfold new_handler in
        record { sync = new_history-IsSync; top = (unfold new_history in refl); started = inl refl }
