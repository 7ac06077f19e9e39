-- ===== src/Clock/Defs.antt =====
-- `emit` and `peek_next_addr` of crates/jesterky-core/src/runner.rs, on the fields of `RunCtx`
-- that they use. The sink keeps the events in the order of their emission; the time comes from
-- the host's clock.
use jesterky.Prelude.{
  ℕ, ◌+◌, ◌%◌, ◌^◌, Bool, ◌&&◌, Option, none, some, List, [], ◌∷◌, ◌++◌, String, ◌==◌,
  if◌then◌else◌, unwrap_or,
}
use jesterky.Json.{Value}
use jesterky.Event.{NodePath, Addr, EventKind, Event, path_eq}

-- A place that counts for itself: a node path and an iteration.
abbrev pub Lane : Type 0
Lane = NodePath × ℕ

unfoldable pub lane_eq : Lane → Lane → Bool
lane_eq a b = path_eq a.0 b.0 && a.1 == b.1

-- `HashMap<(NodePath, u32), u32>`
abbrev pub AddrSeqs : Type 0
AddrSeqs = List (Lane × ℕ)

unfoldable pub seq_at : Lane → AddrSeqs → Option ℕ
unfolding lane_eq
seq_at lane [] = none
seq_at lane ((l, n) ∷ seqs) = if lane_eq l lane then some n else seq_at lane seqs

unfoldable pub set_seq : Lane → ℕ → AddrSeqs → AddrSeqs
unfolding lane_eq
set_seq lane n [] = (lane, n) ∷ []
set_seq lane n ((l, m) ∷ seqs) =
    if lane_eq l lane then (l, n) ∷ seqs else (l, m) ∷ set_seq lane n seqs

-- `entry(..).or_insert(0)`, read.
abbrev pub next_seq : Lane → AddrSeqs → ℕ
next_seq lane seqs = unwrap_or (seq_at lane seqs) 0

pub record LogicalClock : Type 0 where
  pub run_id : String
  pub addr_seqs : AddrSeqs
  pub sink : List Event

abbrev addr_of : String → Lane → ℕ → Addr
addr_of run_id lane n = record {
  run_id = run_id;
  node_path = lane.0;
  iteration = lane.1;
  local_seq = n;
}

unfoldable pub peek_next_addr : LogicalClock → NodePath → ℕ → Addr
unfolding seq_at
peek_next_addr c path iteration =
    addr_of c.run_id (path, iteration) (next_seq (path, iteration) c.addr_seqs)

-- `*next += 1` on a `u32`.
unfoldable pub emit : LogicalClock → NodePath → ℕ → EventKind → Value → ℕ → Addr × LogicalClock
unfolding seq_at set_seq
emit c path iteration kind payload now_ms =
    let lane : Lane = (path, iteration) in
    let local_seq = next_seq lane c.addr_seqs in
    let addr = addr_of c.run_id lane local_seq in
    (
      addr,
      record c {
        addr_seqs = set_seq lane ((local_seq + 1) % 2 ^ 32) c.addr_seqs;
        sink =
            c.sink ++ record { addr = addr; kind = kind; payload = payload; wall_ms = now_ms } ∷ [];
      },
    )

-- One call of `emit`, by whichever task.
pub record Emission : Type 0 where
  pub lane : Lane
  pub kind : EventKind
  pub payload : Value
  pub now_ms : ℕ

-- A run's calls of `emit`, in the order in which they take the lock.
unfoldable pub emit_all : LogicalClock → List Emission → LogicalClock
unfolding emit
emit_all c [] = c
emit_all c (e ∷ es) = emit_all (emit c e.lane.0 e.lane.1 e.kind e.payload e.now_ms).1 es

abbrev pub fresh_clock : String → LogicalClock
fresh_clock run_id = record { run_id = run_id; addr_seqs = []; sink = [] }
