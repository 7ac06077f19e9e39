-- ===== src/Clock/Independence.antt =====
-- Each place counts for itself: interleaving does not change its events.
use jesterky.Prelude.{
  ◌<◌, length, All, if◌then◌else◌, ℕ, ◌+◌, ◌%◌, ◌^◌, ◌≡◌, refl, Bool, false, List, [], ◌∷◌, String,
  arith, keep, inl, inr, Bool-cases,
}
use jesterky.Event.{EventKind, NodePath, Event}
use jesterky.Json.{Value}
use jesterky.Clock.Defs.{
  peek_next_addr, emit, Lane, lane_eq, AddrSeqs, next_seq, LogicalClock, fresh_clock, Emission,
  emit_all,
}
use jesterky.Clock.Lanes.{lane_eq_refl, lane_eq→eq, seq_at-set_seq}
use jesterky.Clock.Stream.{stream, counted, sink-emit_all}

abbrev pub of_lane : Lane → Emission → Bool
of_lane l e = lane_eq e.lane l

abbrev pub in_lane : Lane → Event → Bool
in_lane l e = lane_eq (e.addr.node_path, e.addr.iteration) l

-- The counter of a lane after a call of `emit`.
pub next_seq-counted :
    (seqs : AddrSeqs) (l k : Lane)
    → next_seq k (counted seqs l)
      ≡ (if lane_eq l k then (next_seq l seqs + 1) % 2 ^ 32 else next_seq k seqs)
next_seq-counted seqs l k = ground (arith, seq_at-set_seq l k ((next_seq l seqs + 1) % 2 ^ 32) seqs)

keep-stream :
    (run_id : String) (l : Lane) (es : List Emission) (seqs seqs' : AddrSeqs)
    → next_seq l seqs ≡ next_seq l seqs'
    → keep (in_lane l) (stream run_id seqs es) ≡ stream run_id seqs' (keep (of_lane l) es)
unfolding stream
keep-stream run_id l [] seqs seqs' h = refl
keep-stream run_id l (e ∷ es) seqs seqs' h = elim (Bool-cases (lane_eq e.lane l)) [
  | inl same ↦ ground (
    arith,
    same,
    lane_eq→eq e.lane l,
    next_seq-counted seqs e.lane l,
    next_seq-counted seqs' e.lane l,
    keep-stream run_id l es (counted seqs e.lane) (counted seqs' e.lane),
  )
  | inr other ↦ ground (
    arith,
    other,
    next_seq-counted seqs e.lane l,
    keep-stream run_id l es (counted seqs e.lane) seqs',
  )
]

-- The events of a place are those that its own calls of `emit` give, whatever other places emit
-- in between.
pub lane_independence :
    (run_id : String) (l : Lane) (es : List Emission)
    → keep (in_lane l) (emit_all (fresh_clock run_id) es).sink
      ≡ (emit_all (fresh_clock run_id) (keep (of_lane l) es)).sink
lane_independence run_id l es =
    rw
      (
        sink-emit_all (fresh_clock run_id) es,
        sink-emit_all (fresh_clock run_id) (keep (of_lane l) es),
      )
      (keep-stream run_id l es [] [] refl)

-- Calls for other places leave the counter of a place alone.
next_seq-emit_all :
    (l : Lane) (es : List Emission) (c : LogicalClock)
    → All (λ (e : Emission). lane_eq e.lane l ≡ false) es
    → (next_seq l (emit_all c es).addr_seqs ≡ next_seq l c.addr_seqs)
      × ((emit_all c es).run_id ≡ c.run_id)
unfolding emit_all
next_seq-emit_all l [] c h = (refl, refl)
next_seq-emit_all l (e ∷ es) c h =
    let c' = (emit c e.lane.0 e.lane.1 e.kind e.payload e.now_ms).1 in
    let (same_seq, same_run) = next_seq-emit_all l es c' h.1 in
    (ground (arith, h.0, same_seq, next_seq-counted c.addr_seqs e.lane l), same_run)

-- The address that `peek_next_addr` announces is the one that the next `emit` of that place gives
-- its event, whatever other places emit in between.
pub peek-emit :
    (c : LogicalClock) (path : NodePath) (iteration : ℕ) (es : List Emission) (kind : EventKind)
    (payload : Value) (now_ms : ℕ)
    → All (λ (e : Emission). lane_eq e.lane (path, iteration) ≡ false) es
    → (emit (emit_all c es) path iteration kind payload now_ms).0 ≡ peek_next_addr c path iteration
unfolding emit peek_next_addr
peek-emit c path iteration es kind payload now_ms h =
    let (same_seq, same_run) = next_seq-emit_all (path, iteration) es c h in
    ground (arith, same_seq, same_run)

next_seq-count :
    (l : Lane) (es : List Emission) (c : LogicalClock)
    → next_seq l c.addr_seqs + length (keep (of_lane l) es) < 2 ^ 32
    → next_seq l (emit_all c es).addr_seqs ≡ next_seq l c.addr_seqs + length (keep (of_lane l) es)
unfolding emit_all
next_seq-count l [] c h = omega arith
next_seq-count l (e ∷ es) c h =
    let c' = (emit c e.lane.0 e.lane.1 e.kind e.payload e.now_ms).1 in
    let here = next_seq-counted c.addr_seqs e.lane l in
    ground (arith, h, here, next_seq-count l es c', lane_eq→eq e.lane l, lane_eq_refl l)

-- Each call of `emit` for the same place between a `peek_next_addr` and its `emit` moves the
-- number of the emitted address one further from the announced one, short of the end of `u32`.
pub peek-emit_same_lane :
    (c : LogicalClock) (path : NodePath) (iteration : ℕ) (es : List Emission) (kind : EventKind)
    (payload : Value) (now_ms : ℕ)
    → (peek_next_addr c path iteration).local_seq + length (keep (of_lane (path, iteration)) es)
      < 2 ^ 32
    → (emit (emit_all c es) path iteration kind payload now_ms).0.local_seq
      ≡ (peek_next_addr c path iteration).local_seq + length (keep (of_lane (path, iteration)) es)
unfolding emit peek_next_addr
peek-emit_same_lane c path iteration es kind payload now_ms h =
    next_seq-count (path, iteration) es c h
