-- ===== src/Runner/Keeps.antt =====
-- What every step of a node does to the run's state: a relation that the steps keep, and how the
-- combinators of steps keep it.
use jesterky.F64.{F64}
use jesterky.Limits.{release, poll, LimitSet}
use jesterky.Runner.Trace.{set_io, NodeIo}
use jesterky.Artifact.{RecordedOutput}
use jesterky.Clock.{Lane, emit}
use jesterky.Json.{Value}
use jesterky.Ledger.{Written, LedgerError, Ledger}
use jesterky.Runner.Errors.{HostError, CoreError}
use jesterky.Prelude.{
  false, if◌then◌else◌, Bool, Option, true, some, ◌≡◌, String, [], ◌∷◌, err, ok, Result, ℕ,
}
use jesterky.Event.{EventKind, NodePath}
use jesterky.Runner.Seam.{Host, out_of_fuel, hangs, returns, RunState}
use mathlib.Core.List.{◌++◌ as ◌⧺◌}
use jesterky.Runner.Monad.{
  record_node_io, emits, reads, try_ledger, writes, asks, peek, set_ledger, try, give, the_ledger,
  on_ledger, record_output, attempted, back_on, attempt, and_then_run, Answer, RunWorld, Exec,
  ◌>>=◌,
}

-- A relation between the state before and after, kept by each change that a node makes. A permit is
-- taken and given back around what a session does.
pub record IsKept {S : Type 0} (R : RunState S → RunState S → Type 0) : Type 0 where
  pub here : (s : RunState S) → R s s
  pub later : (s t u : RunState S) → R s t → R t u → R s u
  pub on_host : (s : RunState S) (h : S) → R s (record s { host = h })
  pub on_emit :
      (s : RunState S) (path : NodePath) (iteration : ℕ) (kind : EventKind) (payload : Value)
      (t : ℕ)
      → R s (record s { clock = (emit s.clock path iteration kind payload t).1 })
  pub on_record :
      (s : RunState S) (r : RecordedOutput) → R s (record s { recorded = s.recorded ⧺ r ∷ [] })
  pub on_io :
      (s : RunState S) (lane : Lane) (io : NodeIo)
      → R s (record s { node_io = set_io lane io s.node_io })
  pub guarded :
      (s t : RunState S) (name : String) (set : LimitSet)
      → poll 0 s.limits name ≡ some (true, set)
      → R (record s { limits = set }) t
      → R s (record t { limits = (release t.limits name).1 })

-- How an answer stands to the state before: `F` is what running out of fuel means.
abbrev pub After :
    {S A : Type 0} → Type 0 → (RunState S → RunState S → Type 0) → RunState S → Answer S A → Type 0
After F R s (returns (r, w)) = R s w.1
After F R s hangs = Unit
After F R s out_of_fuel = F

unfoldable pub Keeps :
    {S A : Type 0} → Type 0 → (RunState S → RunState S → Type 0) → Exec S A → Type 0
Keeps F R m = (w : RunWorld _) → After F R w.1 (m w)

module _ {S : Type 0} (F : Type 0) (R : RunState S → RunState S → Type 0) (k : IsKept R) where
  pub since :
      {A : Type 0} (s t : RunState S) (o : Answer S A) → R s t → After F R t o → After F R s o
  since s t (returns (r, w)) st a = k.later s t w.1 st a
  since s t hangs st a = tt
  since s t out_of_fuel st a = a

  After-bind :
      {A B : Type 0} (s : RunState S) (o : Answer S A) (f : A → Exec S B)
      → After F R s o
      → ((a : A) → Keeps F R (f a))
      → After F R s (and_then_run o f)
  unfolding Keeps
  After-bind s (returns (ok a, w)) f h g = since s w.1 (f a w) h (g a w)
  After-bind s (returns (err e, w)) f h g = h
  After-bind s hangs f h g = tt
  After-bind s out_of_fuel f h g = h

  pub bind-Keeps :
      {A B : Type 0} (m : Exec S A) (f : A → Exec S B)
      → Keeps F R m
      → ((a : A) → Keeps F R (f a))
      → Keeps F R (m >>= f)
  unfolding Keeps ◌>>=◌
  bind-Keeps m f h g w = After-bind w.1 (m w) f (h w) g

  After-attempt :
      {A : Type 0} (s : RunState S) (o : Answer S A) → After F R s o → After F R s (attempted o)
  After-attempt s (returns (r, w)) h = h
  After-attempt s hangs h = tt
  After-attempt s out_of_fuel h = h

  pub attempt-Keeps : {A : Type 0} (m : Exec S A) → Keeps F R m → Keeps F R (attempt m)
  unfolding Keeps attempt
  attempt-Keeps m h w = After-attempt w.1 (m w) (h w)

  After-back :
      {A : Type 0} (l : Ledger) (s : RunState S) (o : Answer S A)
      → After F R s o
      → After F R s (back_on l o)
  After-back l s (returns (r, w)) h = h
  After-back l s hangs h = tt
  After-back l s out_of_fuel h = h

  pub on_ledger-Keeps :
      {A : Type 0} (own : Ledger) (m : Exec S A) → Keeps F R m → Keeps F R (on_ledger own m)
  unfolding Keeps on_ledger
  on_ledger-Keeps own m h w = After-back w.0 w.1 (m (own, w.1)) (h (own, w.1))

  pub give-Keeps : {A : Type 0} (a : A) → Keeps {S = S} F R (give a)
  unfolding Keeps give
  give-Keeps a w = k.here w.1

  pub try-Keeps : {A : Type 0} (r : Result CoreError A) → Keeps {S = S} F R (try r)
  unfolding Keeps try
  try-Keeps r w = k.here w.1

  pub try_ledger-Keeps : {A : Type 0} (r : Result LedgerError A) → Keeps {S = S} F R (try_ledger r)
  unfolding Keeps try_ledger
  try_ledger-Keeps r w = k.here w.1

  pub reads-Keeps : {A : Type 0} (f : Ledger → Result LedgerError A) → Keeps {S = S} F R (reads f)
  unfolding Keeps reads
  reads-Keeps f w = k.here w.1

  pub the_ledger-Keeps : Keeps {S = S} F R the_ledger
  unfolding Keeps the_ledger
  the_ledger-Keeps w = k.here w.1

  pub writes-Keeps : (f : Ledger → Written Ledger) → Keeps {S = S} F R (writes f)
  unfolding Keeps writes
  writes-Keeps f w = k.here w.1

  pub set_ledger-Keeps : (l : Ledger) → Keeps {S = S} F R (set_ledger l)
  unfolding Keeps set_ledger
  set_ledger-Keeps l w = k.here w.1

  pub peek-Keeps : (path : NodePath) (iteration : ℕ) → Keeps {S = S} F R (peek path iteration)
  unfolding Keeps peek
  peek-Keeps path iteration w = k.here w.1

  pub asks-Keeps : {A : Type 0} (f : S → Result HostError A × S) → Keeps F R (asks f)
  unfolding Keeps asks
  asks-Keeps f w = k.on_host w.1 (f w.1.host).1

  pub record_output-Keeps : (r : RecordedOutput) → Keeps F R (record_output r)
  unfolding Keeps record_output
  record_output-Keeps r w = k.on_record w.1 r

  pub record_node_io-Keeps :
      (path : NodePath) (iteration : ℕ) (inputs outputs : Value) (score : Option F64)
      (signal : Option Value)
      → Keeps F R (record_node_io path iteration inputs outputs score signal)
  unfolding Keeps record_node_io
  record_node_io-Keeps path iteration inputs outputs score signal w =
      k.on_io w.1 (path, iteration)
        (record { inputs = inputs; outputs = outputs; score = score; signal = signal })

  pub emits-Keeps :
      (host : Host S) (path : NodePath) (iteration : ℕ) (kind : EventKind) (payload : Value)
      → Keeps F R (emits host path iteration kind payload)
  unfolding Keeps emits
  emits-Keeps host path iteration kind payload w =
      let (t, h) = host.now_ms w.1.host in
      let s = w.1 in
      let u = record s { clock = (emit s.clock path iteration kind payload t).1 } in
      k.later s u (record u { host = h }) (k.on_emit s path iteration kind payload t)
        (k.on_host u h)

  pub if-Keeps :
      {A : Type 0} (b : Bool) (m n : Exec S A)
      → Keeps F R m
      → Keeps F R n
      → Keeps F R (if b then m else n)
  if-Keeps true m n h g = h
  if-Keeps false m n h g = g
