-- ===== src/Tests/WholeRuns.antt =====
-- A whole run, crates/jesterky-core/src/runner.rs, and the search for cycles of its workflow.
use jesterky.Runner.Finished.{Agrees}
use mathlib.Core.List.{◌++◌ as ◌⧺◌}
use jesterky.Runner.{run}
use jesterky.Topology.Cycles.{detect_cycles_lem}
use jesterky.Topology.Rank.{Descends}
use jesterky.Runner.RunEvents.{run_events, run_self_check}
use jesterky.Event.{root, Event}
use jesterky.Clock.{fresh_clock, emit_all, Emission}
use jesterky.Json.{null}
use jesterky.Ledger.{store_ledger_path}
use jesterky.Tests.RunnerRuns.{small_args, small_spec, no_text, small_host, no_trace, all_steps}
use jesterky.Prelude.{
  arith, ◌^◌, ◌<◌, length, refl, String, ◌↔◌, all, none, any, err, [], some, false, ◌≡◌, Result,
  ◌∷◌, ok, unwrap_or, ℕ, List,
}
use jesterky.Artifact.{
  check_fan_nodes, node_failed, InvariantCheck, RunStatus, InvariantReport, RunManifest,
  ProcessNode,
}
use jesterky.Topology.{
  validate_bindings, validate_ref, validate_output_destination, is_error, detect_cycles, Diagnostic,
  EdgeMap,
}
use jesterky.Runner.{
  execute_map_parallel, collect_map_outputs, CoreError, returns, Outcome, RunTools,
}

abbrev small_tools : RunTools
small_tools = record {
  spec = record {
    is_json = λ s. false;
    show_f64 = no_text;
    to_value = λ spec. ok null;
    to_vec = λ v. ok [];
    sha256 = λ bytes. "00";
    diagnostics_to_string = λ ds. ok "";
  };
  plan_to_value = λ plan. ok null;
  plan_from_value = λ v. err "";
}

abbrev Ran : Type 0
Ran = Outcome (Result CoreError RunManifest × ℕ)

abbrev small_run : Ran
small_run = run small_host small_tools 2 small_spec "r1" small_args 0

abbrev no_manifest : RunManifest
no_manifest = record {
  run_id = "";
  workflow_name = "";
  spec_hash = "";
  args = null;
  events = [];
  recorded = [];
  checkpoints = [];
  trace = none;
  status = RunStatus.failed;
  stop_reason = node_failed;
  budgets = none;
  goals = none;
  invariants = none;
  grounding = none;
}

abbrev made : Ran → RunManifest
made (returns (ok m, s)) = m
made _ = no_manifest

abbrev left : Ran → ℕ
left (returns (r, s)) = s
left _ = 0

abbrev small_manifest : RunManifest
small_manifest = made small_run

abbrev small_trace : ProcessNode
small_trace = unwrap_or small_manifest.trace no_trace

-- Opening this opens a whole run.
unfoldable whole_run : ℕ
unfolding all_steps run validate_bindings validate_ref validate_output_destination
    execute_map_parallel collect_map_outputs store_ledger_path
whole_run = 0

small_returns : small_run ≡ returns (ok small_manifest, left small_run)
unfolding whole_run
small_returns = refl

small_traced : small_manifest.trace ≡ some small_trace
unfolding whole_run
small_traced = refl

small_count : length small_manifest.events ≡ 15
unfolding whole_run
small_count = refl

small_few : length small_manifest.events < 2 ^ 32
small_few = omega (arith, small_count)

run_events_example :
    (es : List Emission) × (before : List Event) × (last : Event) × (small_manifest.events
      ≡ (emit_all (fresh_clock "r1") es).sink)
    × (small_manifest.events ≡ before ⧺ last ∷ [])
    × (last.addr.node_path ≡ root)
    × (small_manifest.run_id ≡ "r1")
    × Agrees small_manifest last
run_events_example =
    run_events small_host 2 small_spec small_args small_tools "r1" 0 (left small_run) small_manifest
      small_returns

run_self_check_example :
    (report : InvariantReport) × (small_manifest.invariants ≡ some report)
    × (report.all_ok
        ≡ all (λ (c : InvariantCheck). c.ok) (check_fan_nodes no_text no_text small_trace))
run_self_check_example =
    run_self_check small_host 2 small_spec small_args small_tools "r1" 0 (left small_run)
      small_manifest small_trace small_returns small_traced small_few

-- `a` branches to `b`, which ends.
abbrev two_nodes : EdgeMap
two_nodes = ("a", "b" ∷ []) ∷ ("b", []) ∷ []

detect_cycles_lem_example :
    (ds' : List Diagnostic) × (detect_cycles two_nodes [] ≡ some ds')
    × ((any is_error ds' ≡ false) ↔ ((rank : String → ℕ) × Descends two_nodes rank))
    × ((rank : String → ℕ) → Descends two_nodes rank → ds' ≡ [])
detect_cycles_lem_example = detect_cycles_lem two_nodes [] refl
