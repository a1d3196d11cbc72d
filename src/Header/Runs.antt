-- ===== src/Header/Runs.antt =====
-- The packet number generator on concrete states.
use quic_go.Base.{◌≡◌, ◌⊎◌, arith, [], ◌∷◌, none, some}
use quic_go.Header.Numbers.{
  PacketNumberGenerator, new_packet_number_generator, pop_number, numbers,
  new_packet_number_generator-numbers, pop_number-apart,
}

new_packet_number_generator-numbers_example :
    numbers (new_packet_number_generator 2) (some 3 ∷ none ∷ some 65535 ∷ []) ≡ 1 ∷ 2 ∷ 3 ∷ []
new_packet_number_generator-numbers_example =
    new_packet_number_generator-numbers 2 (some 3 ∷ none ∷ some 65535 ∷ []) (omega arith)

-- A generator whose next number to skip is 8.
abbrev skipping : PacketNumberGenerator
skipping = record { average_period = 500; next = 7; next_to_skip = 8 }

pop_number-apart_example :
    ((pop_number skipping (some 0)).0.next ≡ 8)
    ⊎ (((pop_number skipping (some 0)).0.next ≡ 9)
        × ((pop_number (pop_number skipping (some 0)).0 none).0.next ≡ 10))
pop_number-apart_example = pop_number-apart skipping (some 0) none (omega arith)
