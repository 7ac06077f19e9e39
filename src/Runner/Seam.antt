-- ===== src/Runner/Seam.antt =====
-- What the runner asks of its host, crates/jesterky-core/src/traits.rs, and what a run carries
-- along: `RunCtx` of crates/jesterky-core/src/runner.rs.
use jesterky.Runner.Errors.{HostError, CoreError}
use jesterky.Limits.{LimitSet}
use jesterky.Runner.Trace.{NodeIos}
use jesterky.Artifact.{ArtifactRef, RecordedOutput}
use jesterky.F64.{F64}
use jesterky.Topology.{Node}
use jesterky.Ledger.{Ledger}
use jesterky.Prelude.{Bool, Result, ℕ, Option, List, Dict, String}
use jesterky.Event.{NodePath, Addr}
use jesterky.Json.{Value}
use jesterky.Clock.{LogicalClock}

pub record ActorRequest : Type 0 where
  pub addr : Addr
  pub actor : String
  pub inputs : Value

pub record ActorResult : Type 0 where
  pub outputs : Value
  pub score : Option F64
  pub signal : Option Value
  pub artifacts : List ArtifactRef

-- The host, over a state `S` of its own: registered programs, the actor, the clock, the artifact
-- store and the checkpoint store. Programs are pure.
pub record Host (S : Type 0) : Type 0 where
  pub program : String → Option (Ledger → Value → Result CoreError Value)
  pub drive : ActorRequest → S → Result HostError ActorResult × S
  pub now_ms : S → ℕ × S
  -- `None` where there is no store of checkpoints.
  pub load : Option (String → S → Result HostError (Option Value) × S)
  -- `serde_json::to_vec` of the inputs of a call, and `store.put` of those bytes if they are more
  -- than 64 KiB: the inputs, or a reference to what was stored.
  pub to_vec : Value → Result String (List ℕ)
  pub put : List ℕ → String → S → Result HostError ArtifactRef × S
  pub from_str : String → Result String Value
  -- the texts of values, addresses, floats and paths
  pub show_value : Value → String
  pub show_addr : Addr → String
  pub show_f64 : F64 → String
  pub show_path : NodePath → String

-- The fields of `RunCtx` that no node changes. `cancel` is stored to between entrypoints only.
pub record RunCtx : Type 0 where
  pub args : Value
  pub nodes : Dict Node
  pub map_concurrency : Option ℕ
  pub cancel : Bool

-- The fields of `RunCtx` that nodes change, and the host's state. The ledger is passed by itself.
pub record RunState (S : Type 0) : Type 0 where
  pub clock : LogicalClock
  pub recorded : List RecordedOutput
  pub node_io : NodeIos
  pub limits : LimitSet
  pub host : S

-- How a call ends: it returns, it waits for ever, or the fuel of the model runs out.
pub data Outcome (A : Type 0) : Type 0 where
  returns : A → Outcome A
  hangs out_of_fuel : Outcome A

module _ {A B : Type 0} where
  abbrev pub and_run : Outcome A → (A → Outcome B) → Outcome B
  and_run (returns a) f = f a
  and_run hangs f = hangs
  and_run out_of_fuel f = out_of_fuel
