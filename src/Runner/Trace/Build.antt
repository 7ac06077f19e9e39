-- ===== src/Runner/Trace/Build.antt =====
-- `build_trace` of crates/jesterky-core/src/runner.rs.
use jesterky.Event.{Event, root}
use jesterky.Artifact.{RecordedOutput, Children, process_node, ProcessNode}
use jesterky.Runner.Trace.Sort.{sort_trace, sort_io, sort_recorded}
use jesterky.Json.{Value}
use jesterky.Runner.Trace.Insert.{NodeIos, event_inputs_by_addr, insert_all_io, insert_all_recorded}
use jesterky.Prelude.{some, ◌&&◌, is_empty, if◌then◌else◌, Option, [], List, none, String}
use Prim.Native.String.{◌++◌}

-- The root before anything is inserted: the workflow, its arguments and its settled ledger.
abbrev pub trace_root : String → String → Value → Value → ProcessNode
trace_root run_id name args snapshot =
    process_node
      (record {
        addr = record { run_id = run_id; node_path = root; iteration = 0; local_seq = 0 };
        label = "workflow:" ++ name;
        inputs = args;
        outputs = snapshot;
        score = none;
        signal = none;
        artifacts = [];
      })
      Children.none

unfoldable pub build_trace :
    String
    → String
    → Value
    → Value
    → List RecordedOutput
    → NodeIos
    → List Event
    → Option ProcessNode
unfolding insert_all_recorded insert_all_io sort_recorded sort_io sort_trace event_inputs_by_addr
build_trace run_id name args snapshot recorded node_io events =
    if is_empty recorded && is_empty node_io
    then none
    else some (
        sort_trace (
          insert_all_io run_id (sort_io node_io) (
            insert_all_recorded run_id node_io (event_inputs_by_addr events)
              (sort_recorded recorded) (trace_root run_id name args snapshot))))
