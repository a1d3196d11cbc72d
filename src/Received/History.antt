-- ===== src/Received/History.antt =====
-- ackhandler/received_packet_history.go. The linked list of intervals is a list that starts at its
-- back, with the highest packet numbers; the map used as a set is a list with no number twice.
pub mod Ranges
pub mod Deletions
pub mod Sync
use quic_go.Base.{
  ℕ, zero, suc, ◌+◌, ◌-◌, Bool, true, false, ◌&&◌, ◌||◌, List, [], ◌∷◌, length, ltb, leb, ◌==◌,
  if◌then◌else◌, max,
}
use quic_go.Protocol.{add64, sub64}
use quic_go.Frames.Ack.{AckRange}

pub record PacketInterval : Type 0 where
  pub start : ℕ
  pub end : ℕ

pub record History : Type 0 where
  pub ranges : List PacketInterval
  pub numbers : List ℕ
  pub lowest_in_numbers : ℕ

pub data HistoryError : Type 0 where
  too_many_ack_ranges too_many_packets : HistoryError

-- MaxTrackedReceivedAckRanges and MaxTrackedReceivedPackets
abbrev pub max_tracked_ack_ranges : ℕ
max_tracked_ack_ranges = 1000

abbrev pub max_tracked_packets : ℕ
max_tracked_packets = 2000

unfoldable pub new_history : History
new_history = record { ranges = []; numbers = []; lowest_in_numbers = 0 }

-- The map: a read, a write and a delete.
unfoldable pub has : ℕ → List ℕ → Bool
has p [] = false
has p (q ∷ qs) = p == q || has p qs

unfoldable pub put : ℕ → List ℕ → List ℕ
unfolding has
put p qs = if has p qs then qs else p ∷ qs

pub del : ℕ → List ℕ → List ℕ
del p [] = []
del p (q ∷ qs) = if p == q then del p qs else q ∷ del p qs

-- The loops that delete `count` numbers from `i` on.
unfoldable pub del_from : ℕ → ℕ → List ℕ → List ℕ
unfolding del
del_from zero i qs = qs
del_from (suc count) i qs = del_from count (i + 1) (del i qs)

-- A range that was extended may touch the one before it in the linked list.
unfoldable pub merge : PacketInterval → List PacketInterval → List PacketInterval
merge el [] = el ∷ []
merge el (prev ∷ more) =
    if add64 prev.end 1 == el.start
    then record { start = prev.start; end = el.end } ∷ more
    else el ∷ prev ∷ more

-- The loop of ReceivedPacket from the back on, and the insertion in front behind it.
unfoldable pub add_to_ranges : ℕ → List PacketInterval → List PacketInterval
add_to_ranges p [] = record { start = p; end = p } ∷ []
add_to_ranges p (el ∷ rest) =
    let further = add_to_ranges p rest in
    if leb el.start p && leb p el.end
    then el ∷ rest
    else if el.end == sub64 p 1
    then merge (record el { end = p }) rest
    else if el.start == add64 p 1
    then merge (record el { start = p }) rest
    else if ltb el.end p
    then record { start = p; end = p } ∷ el ∷ rest
    else el ∷ further

pub data Received : Type 0 where
  received : History → Received
  refused : HistoryError → Received

unfoldable pub received_packet : History → ℕ → Received
received_packet h p =
    if leb max_tracked_ack_ranges (length h.ranges)
    then refused too_many_ack_ranges
    else if leb max_tracked_packets (length h.numbers)
    then refused too_many_packets
    else received (record h { numbers = put p h.numbers; ranges = add_to_ranges p h.ranges })

-- What the loop of DeleteBelow leaves of a list of ranges and of the numbers; `going` says that the
-- loop has not returned. It starts at the front of the linked list, which is the end of this list.
pub record Deletion : Type 0 where
  pub kept : List PacketInterval
  pub left : List ℕ
  pub going : Bool

unfoldable pub delete_one : ℕ → PacketInterval → Deletion → Deletion
delete_one lu el d =
    if d.going
    then if ltb el.start lu && leb lu el.end
      then record d {
        kept = record el { start = lu } ∷ d.kept;
        left = del_from (lu - el.start) el.start d.left;
      }
      else if ltb el.end lu
      then record d { left = del_from (el.end + 1 - el.start) el.start d.left }
      else record d { kept = el ∷ d.kept; going = false }
    else record d { kept = el ∷ d.kept }

unfoldable pub delete_ranges : ℕ → List PacketInterval → List ℕ → Deletion
delete_ranges lu [] qs = record { kept = []; left = qs; going = true }
delete_ranges lu (el ∷ rest) qs = delete_one lu el (delete_ranges lu rest qs)

unfoldable pub delete_below : History → ℕ → History
delete_below h lu =
    let d = delete_ranges lu h.ranges h.numbers in
    record { ranges = d.kept; numbers = d.left; lowest_in_numbers = max h.lowest_in_numbers lu }

unfoldable pub is_duplicate : History → ℕ → Bool
is_duplicate h p = if ltb p h.lowest_in_numbers then true else has p h.numbers

unfoldable pub ranges_of : List PacketInterval → List AckRange
ranges_of [] = []
ranges_of (el ∷ rest) = record { first = el.start; last = el.end } ∷ ranges_of rest

unfoldable pub get_ack_ranges : History → List AckRange
unfolding ranges_of
get_ack_ranges h = ranges_of h.ranges
