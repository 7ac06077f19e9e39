-- ===== src/Runner/Run.antt =====
-- `Runner::run` and what it calls besides the nodes: `resolve_goal_plan`, `RunCtx::new` and
-- `build_manifest`, crates/jesterky-core/src/runner.rs.
use jesterky.Overlay.{OverlayError}
use jesterky.Clock.{fresh_clock}
use jesterky.Runner.Readings.{value_get}
use jesterky.Artifact.{node_failed, goal_unmet, RunStopReason, RunStatus}
use jesterky.Ledger.{set, new, snapshot_json, Ledger}
use jesterky.Runner.Errors.{overlay, contract, error_text, CoreError}
use jesterky.Runner.Execute.{execute_node}
use jesterky.Runner.Seam.{returns, RunCtx, Host}
use jesterky.Json.{empty, string, null, object, member, Value, Members}
use jesterky.Prelude.{
  keep, true, lookup, false, ◌∷◌, [], List, none, err, ℕ, not, some, ok, ◌||◌, String,
  if◌then◌else◌, ◌&&◌, Bool, Option, Result,
}
use jesterky.Limits.{from_permits}
use jesterky.Topology.{Node, join_with, SpecTools, WorkflowSpec}
use mathlib.Core.List.{map as list_map}
use Prim.Native.String.{◌++◌}
use jesterky.Event.{root, workflow_failed, workflow_completed, EventKind, child}
use jesterky.Goal.{
  is_met, all_required_met, GoalSnapshot, snapshot, overlay_json, GoalStatus, should_fail, GoalPlan,
  has_no_goals,
}
use jesterky.Runner.Monad.{attempt, give, json_object, RunWorld, Exec, ◌>>=◌}

-- What a run takes from serde besides its host.
pub record RunTools : Type 0 where
  pub spec : SpecTools
  pub plan_to_value : GoalPlan → Result String Value
  pub plan_from_value : Value → Result String GoalPlan

abbrev as_contract : Result OverlayError GoalPlan → Result CoreError GoalPlan
as_contract (ok plan) = ok plan
as_contract (err e) = err (contract (overlay e))

abbrev overlaid : RunTools → GoalPlan → Option Value → Result CoreError GoalPlan
overlaid tools base (some null) = ok base
overlaid tools base (some goals) =
    as_contract (overlay_json tools.plan_to_value tools.plan_from_value base goals)
overlaid tools base none = ok base

unfoldable pub resolve_goal_plan : RunTools → GoalPlan → Value → Result CoreError GoalPlan
unfolding overlay_json
resolve_goal_plan tools base args = overlaid tools base (value_get "goals" args)

unfoldable pub set_fields : Members → Ledger → Ledger
set_fields empty l = l
set_fields (member key v m) l = set_fields m (set l key v)

-- The ledger of `RunCtx::new`.
unfoldable pub first_ledger : Value → Ledger
unfolding set_fields
first_ledger (object m) = set_fields m new
first_ledger _ = new

abbrev pub context : WorkflowSpec → Value → Bool → RunCtx
context spec args cancel = record {
  args = args;
  nodes = spec.nodes;
  map_concurrency = spec.runplan.map_concurrency;
  cancel = cancel;
}

unfoldable pub first_world : {S : Type 0} → WorkflowSpec → String → Value → S → RunWorld S
unfolding first_ledger from_permits
first_world spec run_id args s = (
  first_ledger args,
  record {
    clock = fresh_clock run_id;
    recorded = [];
    node_io = [];
    limits = from_permits spec.runplan.limits;
    host = s;
  },
)

-- `failure`, `goal_terminated` and `ctx.cancel` after a loop or a step of `run`.
abbrev pub Progress : Type 0
Progress = Option String × Bool × Bool

-- What `run` does after an entrypoint.
pub data Next : Type 0 where
  terminate : Next
  go_on : Bool → Next

abbrev next_if_met : GoalPlan → Bool → Bool → Next
next_if_met plan cancel met_ =
    if met_
    then (if plan.terminate_on_met then terminate else go_on (cancel || plan.cancel_in_flight))
    else go_on cancel

abbrev unmet_id : GoalStatus → Bool
unmet_id s = s.required && not (is_met s.state)

unfoldable pub goal_unmet_text : GoalSnapshot → String
unfolding join_with
goal_unmet_text s =
    "goal_unmet: " ++ join_with "," (list_map (λ (i : GoalStatus). i.id) (keep unmet_id s.items))

abbrev failing : Option GoalSnapshot → Option String
failing none = none
failing (some s) = if should_fail s then some (goal_unmet_text s) else none

-- A failure of a node comes before that of the goals.
unfoldable pub goal_failure : Option String → Option GoalSnapshot → Option String
unfolding goal_unmet_text should_fail
goal_failure (some reason) goals = none
goal_failure none goals = failing goals

unfoldable pub verdict : Option String → Option String → RunStatus × RunStopReason
verdict none none = (RunStatus.completed, RunStopReason.completed)
verdict none (some reason) = (RunStatus.failed, goal_unmet)
verdict (some reason) goals = (RunStatus.failed, node_failed)

abbrev pub final_kind : Option String → EventKind
final_kind none = workflow_completed
final_kind (some reason) = workflow_failed

abbrev pub final_payload : Option String → Value
final_payload none = null
final_payload (some reason) = json_object (("error", string reason) ∷ [])

module _ {S : Type 0} (host : Host S) where
  unfoldable pub goals_of : String → GoalPlan → RunWorld S → GoalSnapshot
  unfolding snapshot snapshot_json
  goals_of run_id plan w = snapshot host.show_value host.show_f64 run_id plan (snapshot_json w.0)

  unfoldable pub after_node : GoalPlan → Bool → Exec S Next
  unfolding goals_of
  after_node plan cancel w = returns (
    ok (
        if has_no_goals plan
        then go_on cancel
        else next_if_met plan cancel (all_required_met (goals_of w.1.clock.run_id plan w))),
    w,
  )

  -- The node that an id names, run at the root.
  unfoldable pub run_named :
      ℕ → WorkflowSpec → Value → Bool → String → Node → Exec S (Result CoreError Value)
  unfolding execute_node
  run_named fuel spec args cancel id n =
      attempt (execute_node host (context spec args cancel) fuel (child root id) n none 0)

  abbrev pub text_of : CoreError → String
  text_of e = error_text host.show_addr host.show_f64 e

  -- The loop over the entrypoints; `fuel` is that of each of them. What follows an entrypoint is
  -- `rest`, the loop over those that are left.
  abbrev pub with_next : Bool → (Bool → Exec S Progress) → Next → Exec S Progress
  with_next cancel rest terminate = give (none, true, cancel)
  with_next cancel rest (go_on cancel') = rest cancel'

  abbrev pub with_result :
      GoalPlan → Bool → (Bool → Exec S Progress) → Result CoreError Value → Exec S Progress
  with_result plan cancel rest (err e) = give (some (text_of e), false, cancel)
  with_result plan cancel rest (ok v) = after_node plan cancel >>= with_next cancel rest

  abbrev pub run_entry :
      ℕ
      → WorkflowSpec
      → GoalPlan
      → Value
      → Bool
      → String
      → (Bool → Exec S Progress)
      → Option Node
      → Exec S Progress
  run_entry fuel spec plan args cancel id rest none =
      give (some ("unknown node: " ++ id), false, cancel)
  run_entry fuel spec plan args cancel id rest (some n) =
      run_named fuel spec args cancel id n >>= with_result plan cancel rest

  unfoldable pub run_entries :
      ℕ → WorkflowSpec → GoalPlan → Value → Bool → List String → Exec S Progress
  unfolding after_node run_named error_text
  run_entries fuel spec plan args cancel [] = give (none, false, cancel)
  run_entries fuel spec plan args cancel (id ∷ ids) =
      run_entry fuel spec plan args cancel id
        (λ cancel'. run_entries fuel spec plan args cancel' ids) (lookup id spec.nodes)

  abbrev pub finalized : Result CoreError Value → Exec S (Option String)
  finalized (err e) = give (some (text_of e))
  finalized (ok v) = give none

  abbrev pub finalize_node :
      ℕ → WorkflowSpec → Value → Bool → String → Option Node → Exec S (Option String)
  finalize_node fuel spec args cancel id none = give (some ("unknown finalize node: " ++ id))
  finalize_node fuel spec args cancel id (some n) =
      run_named fuel spec args cancel id n >>= finalized

  abbrev pub finalize_with :
      ℕ → WorkflowSpec → Value → Bool → Option String → Exec S (Option String)
  finalize_with fuel spec args cancel none = give none
  finalize_with fuel spec args cancel (some id) =
      finalize_node fuel spec args cancel id (lookup id spec.nodes)

  -- The finalize node, when the goals ended the run.
  unfoldable pub run_finalize :
      ℕ → WorkflowSpec → GoalPlan → Value → Progress → Exec S (Option String)
  unfolding run_named error_text
  run_finalize fuel spec plan args (some reason, terminated, cancel) = give (some reason)
  run_finalize fuel spec plan args (none, false, cancel) = give none
  run_finalize fuel spec plan args (none, true, cancel) =
      finalize_with fuel spec args cancel plan.finalize
