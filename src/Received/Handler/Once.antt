-- ===== src/Received/Handler/Once.antt =====
-- No packet number is accepted twice, whatever happens between.
use quic_go.Base.{
  ℕ, ◌^◌, ◌<◌, ◌≡◌, ◌≢◌, ◌⊎◌, inl, inr, refl, arith, Bool, true, false, ◌&&◌, ◌||◌, List, [], ◌∷◌,
  leb→lt, leb, ◌==◌, All, Bool-cases,
}
use quic_go.Protocol.{sub64}
use quic_go.Frames.StopWaiting.{StopWaitingFrame}
use quic_go.Received.History.{
  History, HistoryError, Received, received, refused, has, received_packet, is_duplicate,
}
use quic_go.Received.History.Sync.{
  IsSync, new_history-IsSync, received_packet-IsSync, delete_below-IsSync,
}
use quic_go.Received.Handler.{
  Handler, Reply, accepted, handle_packet, received_stop_waiting, get_ack_frame, new_handler, Event,
  packet, stop_waiting, ack, step,
}

-- Packet numbers and LeastUnacked are below 2 ^ 63, so that no sum of the code wraps.
abbrev pub InRange : Event → Type 0
InRange (packet pn now) = pn < 2 ^ 63
InRange (stop_waiting f) = f.least_unacked < 2 ^ 63
InRange (ack dequeue) = Unit {0}

-- The packet number is in the history, or the handler ignores it.
pub known : Handler → ℕ → Bool
known h p = leb p h.ignore_packets_below || has p h.history.numbers

abbrev pub Grows : Handler → Handler → Type 0
Grows h h' = (p : ℕ) → known h p ≡ true → known h' p ≡ true

-- What handling a packet changes when the history takes the packet.
abbrev Taken : Handler → ℕ → ℕ → History → Type 0
Taken h pn now hist =
    (0 < pn)
    × (h.ignore_packets_below < pn)
    × (has pn h.history.numbers ≡ false)
    × ((handle_packet h pn now).0.history ≡ hist)
    × ((handle_packet h pn now).0.ignore_packets_below ≡ h.ignore_packets_below)
    × ((handle_packet h pn now).1 ≡ accepted)

abbrev Untouched : Handler → ℕ → ℕ → Type 0
Untouched h pn now = ((handle_packet h pn now).0 ≡ h) × ((handle_packet h pn now).1 ≢ accepted)

accepted_cases :
    (h : Handler) (pn now : ℕ) (hist : History)
    → received_packet h.history pn ≡ received hist
    → Untouched h pn now ⊎ Taken h pn now hist
unfolding handle_packet is_duplicate
accepted_cases h pn now hist r = ground arith

untouched :
    (h : Handler) (pn now : ℕ) (e : HistoryError)
    → received_packet h.history pn ≡ refused e
    → Untouched h pn now
unfolding handle_packet
untouched h pn now e r = ground arith

pub handle_packet_cases :
    (h : Handler) (pn now : ℕ)
    → Untouched h pn now
      ⊎ ((hist : History) × (received_packet h.history pn ≡ received hist) × Taken h pn now hist)
handle_packet_cases h pn now = by_result (received_packet h.history pn) refl
  where
    by_result :
        (r : Received)
        → received_packet h.history pn ≡ r
        → Untouched h pn now
          ⊎ ((hist : History) × (received_packet h.history pn ≡ received hist)
              × Taken h pn now hist)
    by_result (refused e) eq = inl (untouched h pn now e eq)
    by_result (received hist) eq = elim (accepted_cases h pn now hist eq) [
      | inl u ↦ inl u
      | inr t ↦ inr (hist, eq, t)
    ]

-- Everything known before a call is known after it, and the history stays in order.
pub record Keeps (h h' : Handler) : Type 0 where
  pub sync : IsSync h'.history
  pub grows : Grows h h'

or_grow : (a b c : Bool) → (a || b) ≡ true → (a || (b || c)) ≡ true
or_grow a b c h = ground arith

fresh : (i p : ℕ) (b : Bool) → i < p → b ≡ false → (leb p i || b) ≡ false
fresh i p b h e = ground arith

now_known : (i p : ℕ) (b : Bool) → (leb p i || (b || p == p)) ≡ true
now_known i p b = ground arith

pub packet-Keeps :
    (h : Handler) (pn now : ℕ)
    → pn < 2 ^ 63
    → IsSync h.history
    → Keeps h (handle_packet h pn now).0
      × ((handle_packet h pn now).1 ≡ accepted
          → (known h pn ≡ false) × (known (handle_packet h pn now).0 pn ≡ true))
unfolding known
packet-Keeps h pn now hp s = elim (handle_packet_cases h pn now) [
  | inl (e, r) ↦ (record { sync = rw e s; grows = λ q k. rw e k }, λ a. absurd (r a))
  | inr (hist, e, (t0, t1, t2, t3, t4, t5)) ↦
      let (sync', added, low) = received_packet-IsSync h.history hist pn t0 hp s e in
      (
        record {
          sync = rw t3 sync';
          grows = λ q k. rw (t3, t4, added q) (or_grow _ _ (q == pn) k);
        },
        λ a. (fresh _ _ _ t1 t2, rw (t3, t4, added pn) (now_known _ pn _)),
      )
]

cut :
    (i l p : ℕ) (b : Bool)
    → i < l
    → l < 2 ^ 63
    → (leb p i || b) ≡ true
    → (leb p (sub64 l 1) || (b && leb l p)) ≡ true
cut i l p b h hl k = ground arith

stop_waiting-Keeps :
    (h : Handler) (f : StopWaitingFrame)
    → f.least_unacked < 2 ^ 63
    → IsSync h.history
    → Keeps h (received_stop_waiting h f)
unfolding received_stop_waiting known
stop_waiting-Keeps h f hf s = elim (Bool-cases (leb f.least_unacked h.ignore_packets_below)) [
  | inl y ↦ rw y (record { sync = s; grows = λ q k. k })
  | inr n ↦
      let (sync', left) = delete_below-IsSync h.history f.least_unacked s in
      rw n (record { sync = sync'; grows = λ q k. rw (left q) (cut _ _ q _ (leb→lt _ _ n) hf k) })
]

ack_same :
    (h : Handler) (dequeue : Bool)
    → ((get_ack_frame h dequeue).0.history ≡ h.history)
      × ((get_ack_frame h dequeue).0.ignore_packets_below ≡ h.ignore_packets_below)
unfolding get_ack_frame
ack_same h dequeue = ground arith

ack-Keeps : (h : Handler) (dequeue : Bool) → IsSync h.history → Keeps h (get_ack_frame h dequeue).0
unfolding known
ack-Keeps h dequeue s =
    let (e, i) = ack_same h dequeue in record { sync = rw e s; grows = λ q k. rw (e, i) k }

-- No call makes the handler forget a packet number, and the history stays in order.
pub step-Keeps : (h : Handler) (e : Event) → InRange e → IsSync h.history → Keeps h (step h e)
unfolding step
step-Keeps h (packet pn now) r s = (packet-Keeps h pn now r s).0
step-Keeps h (stop_waiting f) r s = stop_waiting-Keeps h f r s
step-Keeps h (ack dequeue) r s = ack-Keeps h dequeue s

-- The packet numbers that a run of calls accepts, in order.
note_accepted : Reply → ℕ → List ℕ → List ℕ
note_accepted accepted pn rest = pn ∷ rest
note_accepted _ pn rest = rest

unfoldable pub accepts : Handler → List Event → List ℕ
unfolding note_accepted step
accepts h [] = []
accepts h (packet pn now ∷ es) =
    note_accepted (handle_packet h pn now).1 pn (accepts (handle_packet h pn now).0 es)
accepts h (stop_waiting f ∷ es) = accepts (received_stop_waiting h f) es
accepts h (ack dequeue ∷ es) = accepts (get_ack_frame h dequeue).0 es

abbrev pub Distinct : List ℕ → Type 0
Distinct [] = Unit {0}
Distinct (p ∷ ps) = (has p ps ≡ false) × Distinct ps

note_accepted_cases :
    (r : Reply) (pn : ℕ) (rest : List ℕ)
    → (note_accepted r pn rest ≡ rest) ⊎ ((r ≡ accepted) × (note_accepted r pn rest ≡ pn ∷ rest))
unfolding note_accepted
note_accepted_cases accepted pn rest = inr (refl, refl)
note_accepted_cases _ pn rest = inl refl

other :
    (h : Handler) (p pn : ℕ) (ps : List ℕ)
    → known h p ≡ true
    → known h pn ≡ false
    → has p ps ≡ false
    → has p (pn ∷ ps) ≡ false
unfolding has
other h p pn ps k n e = ground arith

known_not_accepted :
    (h : Handler) (es : List Event) (p : ℕ)
    → All InRange es
    → IsSync h.history
    → known h p ≡ true
    → has p (accepts h es) ≡ false
unfolding accepts
known_not_accepted h [] p r s k = unfold has in refl
known_not_accepted h (packet pn now ∷ es) p r s k =
    let (kept, acc) = packet-Keeps h pn now r.0 s in
    let h' = (handle_packet h pn now).0 in
    let ih = known_not_accepted h' es p r.1 kept.sync (kept.grows p k) in
    elim (note_accepted_cases (handle_packet h pn now).1 pn (accepts h' es)) [
      | inl e ↦ rw e ih
      | inr (a, e) ↦ rw e (other h p pn (accepts h' es) k (acc a).0 ih)
    ]
known_not_accepted h (stop_waiting f ∷ es) p r s k =
    let kept = stop_waiting-Keeps h f r.0 s in
    known_not_accepted (received_stop_waiting h f) es p r.1 kept.sync (kept.grows p k)
known_not_accepted h (ack dequeue ∷ es) p r s k =
    let kept = ack-Keeps h dequeue s in
    known_not_accepted (get_ack_frame h dequeue).0 es p r.1 kept.sync (kept.grows p k)

accepts-Distinct_from :
    (h : Handler) (es : List Event) → All InRange es → IsSync h.history → Distinct (accepts h es)
unfolding accepts
accepts-Distinct_from h [] r s = tt
accepts-Distinct_from h (packet pn now ∷ es) r s =
    let (kept, acc) = packet-Keeps h pn now r.0 s in
    let h' = (handle_packet h pn now).0 in
    let ih = accepts-Distinct_from h' es r.1 kept.sync in
    elim (note_accepted_cases (handle_packet h pn now).1 pn (accepts h' es)) [
      | inl e ↦ rw e ih
      | inr (a, e) ↦ rw e (known_not_accepted h' es pn r.1 kept.sync (acc a).1, ih)
    ]
accepts-Distinct_from h (stop_waiting f ∷ es) r s =
    accepts-Distinct_from (received_stop_waiting h f) es r.1 (stop_waiting-Keeps h f r.0 s).sync
accepts-Distinct_from h (ack dequeue ∷ es) r s =
    accepts-Distinct_from (get_ack_frame h dequeue).0 es r.1 (ack-Keeps h dequeue s).sync

-- Whatever packets and STOP_WAITING frames arrive at a new handler, in whatever order, and whenever
-- ACK frames are asked for: no packet number is accepted twice, also not after its entry in the
-- history was deleted. All packet numbers are below 2 ^ 63.
pub accepts-Distinct : (es : List Event) → All InRange es → Distinct (accepts new_handler es)
accepts-Distinct es r =
    accepts-Distinct_from new_handler es r (unfold new_handler in new_history-IsSync)
