-- ===== src/Received/History/Sync.antt =====
-- The invariant of the history: the ranges and the set hold the same packet numbers.
use quic_go.Base.{ℕ, ◌^◌, ◌<◌, ◌≡◌, refl, sym, ◌∙◌, arith, Bool, not, ◌&&◌, ◌||◌, leb, ltb, ◌==◌}
use quic_go.Received.History.{
  History, received, has, new_history, received_packet, delete_below, put, add_to_ranges,
}
use quic_go.Received.History.Ranges.{
  covers, Separate, Bounded, covers-add_to_ranges, Separate-add_to_ranges, Bounded-add_to_ranges,
}
use quic_go.Received.History.Deletions.{
  has-put, covers-delete_ranges, has-delete_ranges, Separate-delete_ranges, Bounded-delete_ranges,
}

pub record IsSync (h : History) : Type 0 where
  pub separate : Separate h.ranges
  pub bounded : Bounded h.ranges
  pub same : (q : ℕ) → covers h.ranges q ≡ has q h.numbers

pub new_history-IsSync : IsSync new_history
unfolding new_history has
new_history-IsSync = record { separate = tt; bounded = tt; same = λ q. refl }

-- A packet number that the history accepts is added to the set, no other changes, and the ranges
-- still are the maximal runs of the set: non-empty, falling and with a gap between any two.
-- Packet numbers are positive and below 2 ^ 63.
pub received_packet-IsSync :
    (h h' : History) (p : ℕ)
    → 0 < p
    → p < 2 ^ 63
    → IsSync h
    → received_packet h p ≡ received h'
    → IsSync h'
      × ((q : ℕ) → has q h'.numbers ≡ (has q h.numbers || q == p))
      × (h'.lowest_in_numbers ≡ h.lowest_in_numbers)
received_packet-IsSync h h' p h0 hp s e =
    let shape : h' ≡ record h { numbers = put p h.numbers; ranges = add_to_ranges p h.ranges } =
      unfold received_packet in ground arith in
    rw shape (
      record {
        separate = Separate-add_to_ranges p h.ranges h0 hp s.bounded s.separate;
        bounded = Bounded-add_to_ranges p h.ranges h0 hp s.bounded s.separate;
        same = λ q.
            covers-add_to_ranges p h.ranges q h0 hp s.bounded s.separate
            ∙ rw (s.same q) (sym (has-put p h.numbers q));
      },
      λ q. has-put p h.numbers q,
      refl,
    )

below_bound : (r h : Bool) (q lu : ℕ) → r ≡ h → (h && not (r && ltb q lu)) ≡ (h && leb lu q)
below_bound r h q lu e = ground arith

-- DeleteBelow takes exactly the packet numbers below its bound off the set and off the ranges.
pub delete_below-IsSync :
    (h : History) (lu : ℕ)
    → IsSync h
    → IsSync (delete_below h lu)
      × ((q : ℕ) → has q (delete_below h lu).numbers ≡ (has q h.numbers && leb lu q))
unfolding delete_below
delete_below-IsSync h lu s = (
  record {
    separate = Separate-delete_ranges lu h.ranges h.numbers s.separate;
    bounded = Bounded-delete_ranges lu h.ranges h.numbers s.separate s.bounded;
    same = λ q.
        covers-delete_ranges lu h.ranges h.numbers q s.separate ∙ rw (s.same q) (sym (numbers q));
  },
  numbers,
)
  where
    numbers : (q : ℕ) → has q (delete_below h lu).numbers ≡ (has q h.numbers && leb lu q)
    numbers q =
        has-delete_ranges lu h.ranges h.numbers q s.separate
        ∙ below_bound (covers h.ranges q) (has q h.numbers) q lu (s.same q)
