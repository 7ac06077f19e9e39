-- ===== src/Clock/Unique.antt =====
-- No two events of a run have one address.
use jesterky.Prelude.{
  ◌+◌, ◌^◌, ◌≡◌, ◌<◌, ◌≤◌, true, false, List, [], ◌∷◌, String, arith, All, All-map, length,
}
use jesterky.Event.{Event, addr_eq}
use jesterky.Clock.Defs.{Lane, lane_eq, AddrSeqs, seq_at, next_seq, fresh_clock, Emission, emit_all}
use jesterky.Clock.Lanes.{path_eq_refl, path_eq→eq, lane_eq_refl, lane_eq→eq}
use jesterky.Clock.Stream.{stream, counted, event_of, sink-emit_all}
use jesterky.Clock.Independence.{in_lane, next_seq-counted}

-- Every event has an address that no later one has.
abbrev pub AreUnique : List Event → Type 0
AreUnique [] = Unit
AreUnique (e ∷ es) = All (λ (later : Event). addr_eq e.addr later.addr ≡ false) es × AreUnique es

-- No counter reaches the end of `u32` before the calls are done.
abbrev pub HasRoom : AddrSeqs → List Emission → Type 0
HasRoom seqs es = (l : Lane) → next_seq l seqs + length es < 2 ^ 32

room-counted :
    (seqs : AddrSeqs) (e : Emission) (es : List Emission)
    → HasRoom seqs (e ∷ es)
    → HasRoom (counted seqs e.lane) es
room-counted seqs e es h l = ground (arith, next_seq-counted seqs e.lane l, h l, h e.lane)

grows :
    (seqs : AddrSeqs) (e : Emission) (es : List Emission) (l : Lane)
    → HasRoom seqs (e ∷ es)
    → (next_seq l seqs ≤ next_seq l (counted seqs e.lane))
      × (next_seq e.lane seqs < next_seq e.lane (counted seqs e.lane))
grows seqs e es l h = ground (
  arith,
  next_seq-counted seqs e.lane l,
  next_seq-counted seqs e.lane e.lane,
  lane_eq_refl e.lane,
  lane_eq→eq e.lane l,
  h l,
  h e.lane,
)

-- An event of the same place with a higher number has another address.
later_differs :
    (a b : Event)
    → (in_lane (a.addr.node_path, a.addr.iteration) b ≡ true → a.addr.local_seq < b.addr.local_seq)
    → addr_eq a.addr b.addr ≡ false
unfolding addr_eq lane_eq
later_differs a b h =
    ground (arith, path_eq→eq a.addr.node_path b.addr.node_path, path_eq_refl b.addr.node_path)

-- From here on a place only counts up.
counts_up :
    (run_id : String) (l : Lane) (es : List Emission) (seqs : AddrSeqs)
    → HasRoom seqs es
    → All
        (λ (e : Event). in_lane l e ≡ true → next_seq l seqs ≤ e.addr.local_seq)
        (stream run_id seqs es)
unfolding stream
counts_up run_id l [] seqs h = tt
counts_up run_id l (e ∷ es) seqs h = (
  λ same. ground (arith, lane_eq→eq e.lane l),
  All-map _ _ (stream run_id (counted seqs e.lane) es)
      (λ x up same. omega (arith, up same, (grows seqs e es l h).0))
      (counts_up run_id l es (counted seqs e.lane) (room-counted seqs e es h)),
)

stream_unique :
    (run_id : String) (es : List Emission) (seqs : AddrSeqs)
    → HasRoom seqs es
    → AreUnique (stream run_id seqs es)
unfolding stream
stream_unique run_id [] seqs h = tt
stream_unique run_id (e ∷ es) seqs h = (
  All-map _ _ (stream run_id (counted seqs e.lane) es)
      (λ x up.
        later_differs (event_of run_id seqs e) x
          (λ same. omega (arith, up same, (grows seqs e es e.lane h).1)))
      (counts_up run_id e.lane es (counted seqs e.lane) (room-counted seqs e es h)),
  stream_unique run_id es (counted seqs e.lane) (room-counted seqs e es h),
)

-- The events of a run of fewer than 2^32 calls of `emit` have distinct addresses.
pub emit_all_unique :
    (run_id : String) (es : List Emission)
    → length es < 2 ^ 32
    → AreUnique (emit_all (fresh_clock run_id) es).sink
emit_all_unique run_id es h =
    rw (sink-emit_all (fresh_clock run_id) es)
      (stream_unique run_id es [] (λ l. unfold seq_at in omega arith))
