-- ===== src/Topology/Defs.antt =====
-- The data of a workflow, crates/jesterky-contract/src/topology.rs.

use jesterky.Artifact.{GroundingPlan}
use jesterky.Goal.{GoalPlan}
use jesterky.Budget.{BudgetPlan}
use jesterky.F64.{F64}
use jesterky.Ledger.{Bindings, Ref}
use jesterky.Prelude.{Option, Dict, List, ℕ, String}

pub record Limit : Type 0 where
  pub name : String
  pub permits : ℕ

mutual
  pub data NodeKind : Type 0 where
    program reduce actor : String → NodeKind
    -- over, item_as, concurrency, min_success, body
    map : Ref → String → Option ℕ → F64 → Node → NodeKind
    -- over, item_as, body
    for_each : Ref → String → Node → NodeKind
    -- cond, body, max_iters
    while : Ref → Node → ℕ → NodeKind
    -- cond, then, otherwise
    branch : Ref → String → Option String → NodeKind
    -- sessions, actor, body, limit
    session_group : Ref → String → Node → Option Limit → NodeKind
    -- session, body
    resume_session : Ref → Node → NodeKind

  pub data Node : Type 0 where
    -- kind, inputs, outputs
    node : NodeKind → Bindings → Bindings → Node

abbrev pub kind : Node → NodeKind
kind (node k inputs outputs) = k

pub data Severity : Type 0 where
  info warning error : Severity

pub record Diagnostic : Type 0 where
  pub severity : Severity
  pub path : String
  pub message : String

-- `RunPlan` without its verbosity, which the hosts read.
pub record RunPlan : Type 0 where
  pub limits : Dict ℕ
  pub map_concurrency : Option ℕ
  pub budgets : BudgetPlan
  pub goals : GoalPlan
  pub grounding : GroundingPlan

-- `WorkflowSpec` without the wiring of its host.
pub record WorkflowSpec : Type 0 where
  pub name : String
  pub entrypoint : List String
  pub nodes : Dict Node
  pub runplan : RunPlan

abbrev pub error_at : String → String → Diagnostic
error_at path message = record { severity = error; path = path; message = message }
