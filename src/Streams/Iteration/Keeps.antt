-- ===== src/Streams/Iteration/Keeps.antt =====
-- What the callback of RoundRobinIterate keeps, the iteration keeps.
use quic_go.Base.{
  ℕ, zero, suc, ◌+◌, ◌%◌, ◌^◌, inl, inr, Bool, true, false, ◌||◌, List, [], ◌∷◌, Option, none, some,
  length, get_elem?, ◌==◌, if◌then◌else◌, Option-cases,
}
use quic_go.Base.Maps.{find}
use quic_go.Streams.Map.{
  StreamsMap, MapError, too_many_open_streams, invalid_stream_id, map_access, closed_but_open,
  non_existing, index_out_of_range, callback_failed,
}
use quic_go.Streams.Iteration.{
  Verdict, goes_on, stops, fails, iterate_func, round_robin_from, priority, round_robin_iterate,
}

-- An invariant of what the callback changes is one of the whole iteration.
module _ {S T : Type 0} (P : T → Type 0)
    (fn : S → StreamsMap S × T → (StreamsMap S × T) × Verdict) where
  abbrev pub Keeps : Type 0
  Keeps = (s : S) (w : StreamsMap S × T) → P w.1 → P (fn s w).0.1

  iterate_func-keeps :
      Keeps → (id : ℕ) (w : StreamsMap S × T) → P w.1 → P (iterate_func fn id w).0.1
  unfolding iterate_func
  iterate_func-keeps k id w p = elim (Option-cases (find id w.0.streams)) [
    | inl e ↦ rw (iterate_func, e) p
    | inr (none, e) ↦ rw (iterate_func, e) p
    | inr (some s, e) ↦ rw (iterate_func, e) (k s w p)
  ]

  round_robin_from-keeps :
      Keeps
      → (count start n i : ℕ) (w : StreamsMap S × T) → P w.1
      → P (round_robin_from fn count start n i w).0.1
  unfolding round_robin_from
  round_robin_from-keeps k count start zero i w p = p
  round_robin_from-keeps k count start (suc n) i w p =
      elim (Option-cases (get_elem? w.0.open_streams ((i + start) % 2 ^ 32 % count))) [
        | inl e ↦ rw (round_robin_from, e) p
        | inr (id, e) ↦
            rw (round_robin_from, e)
              (skipped (id == 1 || id == 3) _ _ (round_robin_from-keeps k count start n (i + 1) w p)
                (visited (iterate_func fn id w).1 _ _ (iterate_func fn id w).0
                  (round_robin_from-keeps k count start n (i + 1) _ (iterate_func-keeps k id w p))
                  (iterate_func-keeps k id w p) (iterate_func-keeps k id w p)))
      ]
    where
      skipped :
          (b : Bool) (x y : (StreamsMap S × T) × Option MapError)
          → P x.0.1
          → P y.0.1
          → P (if b then x else y).0.1
      skipped true x y h g = h
      skipped false x y h g = g

      visited :
          (v : Verdict) (x : (StreamsMap S × T) × Option MapError) (moved w' : StreamsMap S × T)
          → P x.0.1
          → P moved.1
          → P w'.1
          → let r : (StreamsMap S × T) × Option MapError = elim v [
            | goes_on ↦ x
            | stops ↦ (moved, none)
            | fails e ↦ (w', some e)
          ] in
            P r.0.1
      visited goes_on x moved w' h g l = h
      visited stops x moved w' h g l = g
      visited (fails e) x moved w' h g l = l

  priority-keeps : Keeps → (ids : List ℕ) (w : StreamsMap S × T) → P w.1 → P (priority fn ids w).0.1
  unfolding priority
  priority-keeps k [] w p = p
  priority-keeps k (id ∷ ids) w p =
      first (iterate_func fn id w).1 _ (iterate_func fn id w).0
        (priority-keeps k ids _ (iterate_func-keeps k id w p)) (iterate_func-keeps k id w p)
    where
      first :
          (v : Verdict) (x : (StreamsMap S × T) × Verdict) (w' : StreamsMap S × T)
          → P x.0.1
          → P w'.1
          → let r : (StreamsMap S × T) × Verdict = elim v [
            | goes_on ↦ x
            | stops ↦ (w', stops)
            | fails map_access ↦ x
            | fails e ↦ (w', fails e)
          ] in
            P r.0.1
      first goes_on x w' h g = h
      first stops x w' h g = g
      first (fails map_access) x w' h g = h
      first (fails too_many_open_streams) x w' h g = g
      first (fails invalid_stream_id) x w' h g = g
      first (fails closed_but_open) x w' h g = g
      first (fails non_existing) x w' h g = g
      first (fails index_out_of_range) x w' h g = g
      first (fails callback_failed) x w' h g = g

  pub round_robin_iterate-keeps :
      Keeps → (w : StreamsMap S × T) → P w.1 → P (round_robin_iterate fn w).0.1
  unfolding round_robin_iterate
  round_robin_iterate-keeps k w p =
      by_priority (priority fn (1 ∷ 3 ∷ []) w).1 (priority fn (1 ∷ 3 ∷ []) w).0
        (priority-keeps k (1 ∷ 3 ∷ []) w p)
    where
      by_priority :
          (v : Verdict) (w' : StreamsMap S × T)
          → P w'.1
          → let r : (StreamsMap S × T) × Option MapError = elim v [
            | goes_on ↦
                round_robin_from fn
                  (length w.0.open_streams)
                  w.0.round_robin_index
                  (length w.0.open_streams)
                  0
                  w'
            | stops ↦ (w', none)
            | fails e ↦ (w', some e)
          ] in
            P r.0.1
      by_priority goes_on w' h = round_robin_from-keeps k _ _ _ 0 w' h
      by_priority stops w' h = h
      by_priority (fails e) w' h = h
