-- ===== src/Runner/Monad.antt =====
-- The steps of a node as state passing: a ledger, the run's state, and `?` on a `CoreError`, which
-- leaves what was changed before.
use jesterky.Runner.Trace.{set_io, NodeIo}
use jesterky.F64.{F64}
use jesterky.Json.Object.{of_dict}
use jesterky.Clock.{emit, peek_next_addr}
use jesterky.Json.{object, Value}
use jesterky.Runner.Errors.{ledger, CoreError, HostError}
use jesterky.Runner.Seam.{out_of_fuel, hangs, RunState, Host, Outcome, returns}
use jesterky.Event.{EventKind, Addr, NodePath}
use jesterky.Artifact.{RecordedOutput}
use jesterky.Ledger.{LedgerError, Written, Ledger}
use jesterky.Prelude.{Option, [], ◌∷◌, err, ℕ, String, List, ok, Result}
use mathlib.Core.List.{◌++◌ as ◌⧺◌}

-- The ledger that a node works on, and the state of the run.
abbrev pub RunWorld : Type 0 → Type 0
RunWorld S = Ledger × RunState S

abbrev pub Answer : Type 0 → Type 0 → Type 0
Answer S A = Outcome (Result CoreError A × RunWorld S)

abbrev pub Exec : Type 0 → Type 0 → Type 0
Exec S A = RunWorld S → Answer S A

-- `#[from]`: a ledger's and a host's error as the runner's.
module _ {A : Type 0} where
  abbrev as_core : Result LedgerError A → Result CoreError A
  as_core (ok a) = ok a
  as_core (err e) = err (ledger e)

  abbrev as_host : Result HostError A → Result CoreError A
  as_host (ok a) = ok a
  as_host (err e) = err (CoreError.host e)

module _ {S A B : Type 0} where
  abbrev pub and_then_run : Answer S A → (A → Exec S B) → Answer S B
  and_then_run (returns (ok a, w)) f = f a w
  and_then_run (returns (err e, w)) f = returns (err e, w)
  and_then_run hangs f = hangs
  and_then_run out_of_fuel f = out_of_fuel

  infixl 5 ◌>>=◌
  unfoldable pub ◌>>=◌ : Exec S A → (A → Exec S B) → Exec S B
  (m >>= f) w = and_then_run (m w) f

module _ {S A : Type 0} where
  unfoldable pub give : A → Exec S A
  give a w = returns (ok a, w)

  -- `result?`
  unfoldable pub try : Result CoreError A → Exec S A
  try r w = returns (r, w)

  abbrev pub attempted : Answer S A → Answer S (Result CoreError A)
  attempted (returns (r, w)) = returns (ok r, w)
  attempted hangs = hangs
  attempted out_of_fuel = out_of_fuel

  -- A call without `?`: its result is a value.
  unfoldable pub attempt : Exec S A → Exec S (Result CoreError A)
  attempt m w = attempted (m w)

  abbrev pub back_on : Ledger → Answer S A → Answer S A
  back_on l (returns (r, w)) = returns (r, (l, w.1))
  back_on l hangs = hangs
  back_on l out_of_fuel = out_of_fuel

  -- A call that works on a ledger of its own.
  unfoldable pub on_ledger : Ledger → Exec S A → Exec S A
  on_ledger own m w = back_on w.0 (m (own, w.1))

  unfoldable pub try_ledger : Result LedgerError A → Exec S A
  try_ledger r w = returns (as_core r, w)

  unfoldable pub reads : (Ledger → Result LedgerError A) → Exec S A
  reads f w = returns (as_core (f w.0), w)

module _ {S : Type 0} where
  unfoldable pub the_ledger : Exec S Ledger
  the_ledger w = returns (ok w.0, w)

  -- A call on the ledger through `&mut`.
  unfoldable pub writes : (Ledger → Written Ledger) → Exec S Unit
  writes f w = let (r, l) = f w.0 in returns (as_core r, (l, w.1))

  unfoldable pub set_ledger : Ledger → Exec S Unit
  set_ledger l w = returns (ok tt, (l, w.1))

  -- A call of the host.
  unfoldable pub asks : {A : Type 0} → (S → Result HostError A × S) → Exec S A
  asks f w = let (r, s) = f w.1.host in returns (as_host r, (w.0, record w.1 { host = s }))

  unfoldable pub record_output : RecordedOutput → Exec S Unit
  record_output r w = returns (ok tt, (w.0, record w.1 { recorded = w.1.recorded ⧺ r ∷ [] }))

  -- `RunCtx::record_node_io`
  unfoldable pub record_node_io :
      NodePath → ℕ → Value → Value → Option F64 → Option Value → Exec S Unit
  unfolding set_io
  record_node_io path iteration inputs outputs score signal w =
      let io : NodeIo = record {
        inputs = inputs;
        outputs = outputs;
        score = score;
        signal = signal;
      } in
      returns (ok tt, (w.0, record w.1 { node_io = set_io (path, iteration) io w.1.node_io }))

  unfoldable pub peek : NodePath → ℕ → Exec S Addr
  unfolding peek_next_addr
  peek path iteration w = returns (ok (peek_next_addr w.1.clock path iteration), w)

  -- `Runner::emit`
  unfoldable pub emits : Host S → NodePath → ℕ → EventKind → Value → Exec S Unit
  unfolding emit
  emits host path iteration kind payload w =
      let (t, s) = host.now_ms w.1.host in
      returns (
        ok tt,
        (w.0, record w.1 { clock = (emit w.1.clock path iteration kind payload t).1; host = s }),
      )

-- `json!({ .. })`
unfoldable pub json_object : List (String × Value) → Value
json_object fields = object (of_dict fields)
