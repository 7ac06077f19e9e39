-- ===== src/Tests/ClockRuns.antt =====
-- Two places that emit in turn, crates/jesterky-core/src/runner.rs.

use jesterky.Json.{null}
use jesterky.Event.{Event, index, node_started, node, path_eq}
use jesterky.Clock.Independence.{lane_independence, of_lane, in_lane}
use jesterky.Clock.Unique.{emit_all_unique, AreUnique}
use jesterky.Prelude.{refl, map, [], arith, ◌≡◌, ◌∷◌, ℕ, keep, List}
use jesterky.Clock.{set_seq, seq_at, emit, fresh_clock, Emission, Lane, lane_eq, emit_all}

abbrev scan : Lane
scan = (node "scan" ∷ [], 0)

abbrev report : Lane
report = (node "report" ∷ index 2 ∷ [], 1)

abbrev emission : Lane → ℕ → Emission
emission lane now_ms = record { lane = lane; kind = node_started; payload = null; now_ms = now_ms }

abbrev in_turn : List Emission
in_turn = emission scan 10 ∷ emission report 20 ∷ emission scan 30 ∷ []

emit_all_runs :
    map (λ (e : Event). e.addr.local_seq) (emit_all (fresh_clock "r1") in_turn).sink
    ≡ 0 ∷ 0 ∷ 1 ∷ []
unfolding emit_all emit seq_at set_seq lane_eq path_eq
emit_all_runs = refl

emit_all_unique_example : AreUnique (emit_all (fresh_clock "r1") in_turn).sink
emit_all_unique_example = emit_all_unique "r1" in_turn (omega arith)

lane_independence_example :
    keep (in_lane scan) (emit_all (fresh_clock "r1") in_turn).sink
    ≡ (emit_all (fresh_clock "r1") (keep (of_lane scan) in_turn)).sink
lane_independence_example = lane_independence "r1" scan in_turn
