-- ===== src/Artifact/Defs.antt =====
-- The process tree and the manifest, crates/jesterky-contract/src/artifact.rs.
use jesterky.Prelude.{Bool, Option, List, String}
use jesterky.F64.{F64}
use jesterky.Json.{Value}
use jesterky.Event.{Addr, Event}
use jesterky.Goal.{GoalSnapshot}
use jesterky.Budget.{BudgetSnapshot}
use jesterky.Artifact.Verdicts.{ArtifactRef, Grounding, GroundingReport}

pub data Artifact : Type 0 where
  inline : Value → Artifact
  ref : ArtifactRef → Artifact

-- The fields of a `ProcessNode` besides its children.
pub record NodeInfo : Type 0 where
  pub addr : Addr
  pub label : String
  pub inputs : Value
  pub outputs : Value
  pub score : Option F64
  pub signal : Option Value
  pub artifacts : List ArtifactRef

mutual
  pub data ProcessNode : Type 0 where
    process_node : NodeInfo → Children → ProcessNode

  -- `Vec<ProcessNode>`
  pub data Children : Type 0 where
    none : Children
    child : ProcessNode → Children → Children

pub data CallKind : Type 0 where
  actor resource_observe resource_step : String → CallKind

pub record RecordedOutput : Type 0 where
  pub addr : Addr
  pub call : CallKind
  pub outputs : Value
  pub score : Option F64
  pub signal : Option Value
  pub artifacts : List ArtifactRef
  pub grounding : Grounding

pub record Checkpoint : Type 0 where
  pub session : String
  pub addr : Addr
  pub state : Artifact

pub data RunStatus : Type 0 where
  completed failed : RunStatus

pub data RunStopReason : Type 0 where
  completed node_failed goal_unmet budget_exhausted : RunStopReason

pub record InvariantCheck : Type 0 where
  pub name : String
  pub ok : Bool
  pub detail : String

pub record InvariantReport : Type 0 where
  pub all_ok : Bool
  pub checks : List InvariantCheck

pub record RunManifest : Type 0 where
  pub run_id : String
  pub workflow_name : String
  pub spec_hash : String
  pub args : Value
  pub events : List Event
  pub recorded : List RecordedOutput
  pub checkpoints : List Checkpoint
  pub trace : Option ProcessNode
  pub status : RunStatus
  pub stop_reason : RunStopReason
  pub budgets : Option BudgetSnapshot
  pub goals : Option GoalSnapshot
  pub invariants : Option InvariantReport
  pub grounding : Option GroundingReport
