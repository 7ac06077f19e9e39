-- ===== src/Tests/ManifestRuns.antt =====
-- The self-check and the grounding report of a small manifest,
-- crates/jesterky-contract/src/artifact.rs and crates/jesterky-contract/src/grounding.rs.

use jesterky.Grounding.Closed.{compute_report_status}
use jesterky.Clock.Unique.{AreUnique}
use jesterky.Artifact.UniqueAddrs.{unique_addrs_lem}
use jesterky.Json.{null}
use jesterky.Prelude.{refl, arith, some, ◌↔◌, [], none, String, true, ◌≡◌, ◌∷◌}
use jesterky.Clock.{Emission}
use jesterky.Grounding.Report.{total, compute_report}
use jesterky.Event.{path_eq, addr_eq, node_started, node, Addr}
use jesterky.F64.{F64}
use jesterky.Artifact.{
  RunStopReason, find_duplicate, node_checks, RunStatus, ungraded, required_trace_unread,
  check_fan_nodes, collect_leaf_addrs, Children, actor, process_node, trace_checks,
  compute_invariants, RunManifest, ProcessNode, RecordedOutput, NodeInfo, no_orphans_check,
  unique_addrs_check,
}

abbrev no_addr : Addr → String
no_addr a = ""

abbrev no_f64 : F64 → String
no_f64 x = ""

abbrev scan_addr : Addr
scan_addr = record { run_id = "r1"; node_path = node "scan" ∷ []; iteration = 0; local_seq = 1 }

abbrev scan_info : NodeInfo
scan_info = record {
  addr = scan_addr;
  label = "scan";
  inputs = null;
  outputs = null;
  score = none;
  signal = none;
  artifacts = [];
}

abbrev scan_output : RecordedOutput
scan_output = record {
  addr = scan_addr;
  call = actor "scanner";
  outputs = null;
  score = none;
  signal = none;
  artifacts = [];
  grounding = ungraded;
}

abbrev scan_trace : ProcessNode
scan_trace = process_node scan_info Children.none

abbrev scan_manifest : RunManifest
scan_manifest = record {
  run_id = "r1";
  workflow_name = "audit";
  spec_hash = "";
  args = null;
  events = [];
  recorded = scan_output ∷ [];
  checkpoints = [];
  trace = some scan_trace;
  status = RunStatus.completed;
  stop_reason = RunStopReason.completed;
  budgets = none;
  goals = none;
  invariants = none;
  grounding = none;
}

abbrev scan_emission : Emission
scan_emission = record {
  lane = (node "scan" ∷ [], 0);
  kind = node_started;
  payload = null;
  now_ms = 10;
}

compute_invariants_runs : (compute_invariants no_addr no_f64 scan_manifest).all_ok ≡ true
unfolding compute_invariants unique_addrs_check trace_checks no_orphans_check collect_leaf_addrs
    check_fan_nodes node_checks find_duplicate addr_eq path_eq
compute_invariants_runs = refl

unique_addrs_lem_example :
    ((unique_addrs_check no_addr no_f64 scan_manifest.events).ok ≡ true)
    ↔ AreUnique scan_manifest.events
unique_addrs_lem_example = unique_addrs_lem no_addr no_f64 scan_manifest.events

compute_report_status_example :
    let report = compute_report scan_manifest (record { trace_required = true }) in
    (total report.tally ≡ 1) × (report.status ≡ required_trace_unread)
compute_report_status_example =
    compute_report_status scan_manifest (record { trace_required = true }) (omega arith)
