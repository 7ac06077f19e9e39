-- ===== src/Runner/Manifest.antt =====
-- The end of `Runner::run`, crates/jesterky-core/src/runner.rs: the goals, the last event and
-- `build_manifest`, and `run` as a whole.
use jesterky.Ledger.{snapshot_json}
use jesterky.Event.{workflow_started, root}
use jesterky.Runner.Errors.{invalid, contract, CoreError}
use jesterky.Json.{Value}
use jesterky.Grounding.Report.{compute_report}
use jesterky.Topology.{validate_and_hash, WorkflowSpec}
use jesterky.Runner.Trace.{build_trace}
use jesterky.Artifact.{RunStopReason, RunStatus, RunManifest, compute_invariants}
use jesterky.Prelude.{
  false, err, ok, [], if◌then◌else◌, Result, none, some, ℕ, String, Bool, Option,
}
use jesterky.Runner.Seam.{hangs, returns, out_of_fuel, Outcome, Host}
use jesterky.Runner.Run.{
  final_payload, final_kind, resolve_goal_plan, goal_failure, run_finalize, first_world,
  run_entries, RunTools, goals_of, verdict, Progress,
}
use jesterky.Goal.{GoalSnapshot, GoalPlan, has_no_goals}
use jesterky.Runner.Monad.{emits, Exec, RunWorld, Answer, ◌>>=◌}

abbrev or_reason : Option String → Option String → Option String
or_reason none goals = goals
or_reason (some reason) goals = some reason

abbrev was_terminated : Progress → Bool
was_terminated (failure, terminated, cancel) = terminated

module _ {S : Type 0} (host : Host S) where
  -- `goal_snapshot`, from the settled ledger.
  unfoldable pub final_goals : GoalPlan → Bool → RunWorld S → Option GoalSnapshot
  unfolding goals_of
  final_goals plan terminated w =
      if has_no_goals plan
      then none
      else some (record (goals_of host w.1.clock.run_id plan w) { terminated_early = terminated })

  unfoldable pub build_manifest :
      WorkflowSpec
      → String
      → Value
      → RunStatus × RunStopReason
      → Option GoalSnapshot
      → RunWorld S
      → RunManifest
  unfolding build_trace
  build_manifest spec hash args (status, stop_reason) goals w =
      let st = w.1 in
      record {
        run_id = st.clock.run_id;
        workflow_name = spec.name;
        spec_hash = hash;
        args = args;
        events = st.clock.sink;
        recorded = st.recorded;
        checkpoints = [];
        trace =
            build_trace st.clock.run_id spec.name args (snapshot_json w.0) st.recorded st.node_io
              st.clock.sink;
        status = status;
        stop_reason = stop_reason;
        budgets = none;
        goals = goals;
        invariants = none;
        grounding = none;
      }

  -- The self-check and the grounding of the manifest, attached to it.
  unfoldable pub with_reports : WorkflowSpec → RunManifest → RunManifest
  unfolding compute_invariants compute_report
  with_reports spec manifest =
      let checked = record manifest {
        invariants = some (compute_invariants host.show_addr host.show_f64 manifest);
      } in
      record checked { grounding = some (compute_report checked spec.runplan.grounding) }

  -- The last event, and the manifest after it.
  unfoldable pub conclude_with :
      WorkflowSpec → String → Value → Option String → Option GoalSnapshot → Exec S RunManifest
  unfolding build_manifest with_reports verdict goal_failure
  conclude_with spec hash args failure goals =
      let unmet = goal_failure failure goals in
      emits host root 0 (final_kind (or_reason failure unmet))
        (final_payload (or_reason failure unmet))
      >>= λ (u : Unit) (w : RunWorld S). returns (
        ok (with_reports spec (build_manifest spec hash args (verdict failure unmet) goals w)),
        w,
      )

  -- From the goals on.
  unfoldable pub conclude :
      WorkflowSpec → GoalPlan → String → Value → Bool → Option String → Exec S RunManifest
  unfolding final_goals conclude_with
  conclude spec plan hash args terminated failure w =
      conclude_with spec hash args failure (final_goals plan terminated w) w

  unfoldable pub run_planned : ℕ → WorkflowSpec → GoalPlan → String → Value → Exec S RunManifest
  unfolding run_entries run_finalize conclude
  run_planned fuel spec plan hash args = do
    u ← emits host root 0 workflow_started args
    p ← run_entries host fuel spec plan args false spec.entrypoint
    failure ← run_finalize host fuel spec plan args p
    conclude spec plan hash args (was_terminated p) failure

  abbrev pub host_of : Answer S RunManifest → Outcome (Result CoreError RunManifest × S)
  host_of (returns (r, w)) = returns (r, w.1.host)
  host_of hangs = hangs
  host_of out_of_fuel = out_of_fuel

  module _ (tools : RunTools) where
    abbrev pub run_hashed :
        ℕ
        → WorkflowSpec
        → String
        → Value
        → S
        → String
        → Result CoreError GoalPlan
        → Outcome (Result CoreError RunManifest × S)
    run_hashed fuel spec run_id args s hash (ok plan) =
        host_of (run_planned fuel spec plan hash args (first_world spec run_id args s))
    run_hashed fuel spec run_id args s hash (err e) = returns (err e, s)

    -- `Runner::run`; the fuel is that of the nodes.
    unfoldable pub run :
        ℕ → WorkflowSpec → String → Value → S → Outcome (Result CoreError RunManifest × S)
    unfolding run_planned first_world resolve_goal_plan validate_and_hash
    run fuel spec run_id args s = elim (validate_and_hash tools.spec spec) [
      | none ↦ out_of_fuel
      | some (err message) ↦ returns (err (contract (invalid message)), s)
      | some (ok hash) ↦
          run_hashed fuel spec run_id args s hash (resolve_goal_plan tools spec.runplan.goals args)
    ]
