-- ===== src/Tests/RunnerRuns.antt =====
-- Runs of small workflows, crates/jesterky-core/src/runner.rs, on a host that counts its clock.
use jesterky.Runner.Gate.{map_checks_lem}
use jesterky.Runner.Trace.Covers.{build_trace_covers}
use jesterky.Limits.{release, poll, check_known}
use jesterky.Runner.Ends.{execute_node_ends, BranchesDescend, max_depth, BranchesBelow}
use jesterky.Runner.Trace.{trace_root, build_trace}
use jesterky.Runner.{
  map_signal, success_ratio, map_inputs, ItemResult, is_gate_closed, map_width, session_id, ◌>>=◌,
}
use jesterky.Prelude.Text.{decimal, has_prefix, trim, split_dots}
use jesterky.Json.Object.{put, of_dict}
use jesterky.Runner.Parallel.{execute_map_parallel_lem}
use jesterky.Runner.Permits.{permits_given_back, permits_of}
use jesterky.Budget.{off, BudgetPlan}
use jesterky.F64.{F64, f64_lt, f64_lt, f64_arithmetic, zero_f64, one_f64}
use jesterky.Goal.{default_plan}
use jesterky.Artifact.{
  item_children, Children, node_checks, InvariantCheck, Grounding, CallKind, RecordedOutput,
  no_orphans_check, ProcessNode, NodeInfo, ArtifactRef,
}
use jesterky.Event.{child}
use jesterky.Json.{null, pos_int, number, array_of, Value}
use jesterky.Topology.{branch, session_group, NodeKind, node, Node, WorkflowSpec}
use jesterky.Ledger.{
  with_item, walk_path, store_outputs, ledger_key_and_path, item_source_and_path, set, with_item_as,
  resolve, resolve_bindings, Ledger,
}
use jesterky.Prelude.{
  inr, arith, leb, ap, subst, inl, all, Bool-cases, ◌≢◌, unwrap_or, ◌*◌, insert, refl, ◌≡◌, true,
  false, length, str_eq, err, ok, some, none, if◌then◌else◌, [], suc, Result, ◌∷◌, ℕ, Option, List,
  String,
}
use jesterky.Runner.{
  emits, peek, record_node_io, record_output, asks, set_ledger, writes, the_ledger, reads,
  try_ledger, on_ledger, attempt, try, give, execute_map_serial, execute_map_parallel, out_of_fuel,
  context, RunCtx, hangs, execute_node, returns, ActorResult, first_world, HostError, CoreError,
  json_object, RunWorld, run_planned, ActorRequest, Answer, Host,
}

abbrev echo : Ledger → Value → Result CoreError Value
echo l args = ok args

abbrev small_program : String → Option (Ledger → Value → Result CoreError Value)
small_program op = if str_eq op "echo" then some echo else none

abbrev small_drive : ActorRequest → ℕ → Result HostError ActorResult × ℕ
small_drive req s =
    (ok (record { outputs = req.inputs; score = none; signal = none; artifacts = [] }), s)

abbrev small_put : List ℕ → String → ℕ → Result HostError ArtifactRef × ℕ
small_put bytes content_type s =
    (ok (record { key = "k"; size_bytes = length bytes; content_type = content_type }), s)

abbrev pub no_text : {A : Type 0} → A → String
no_text a = ""

abbrev pub small_host : Host ℕ
small_host = record {
  program = small_program;
  drive = small_drive;
  now_ms = λ s. (s, suc s);
  load = none;
  to_vec = λ v. ok [];
  put = small_put;
  from_str = λ s. err s;
  show_value = no_text;
  show_addr = no_text;
  show_f64 = no_text;
  show_path = no_text;
}

-- An array of two numbers is fanned over by an actor that gives its item back.
abbrev ask : Node
ask = node (NodeKind.actor "judge") (("row", "item") ∷ []) []

abbrev fan : Node
fan = node (NodeKind.map "ledger.rows" "item" (some 2) one_f64 ask) [] (("row", "ledger.seen") ∷ [])

abbrev no_budgets : BudgetPlan
no_budgets = record {
  caps = [];
  warning_percent = zero_f64;
  fail_on_hard_exhaust = true;
  eta = record {
    enabled = false;
    mode = off;
    min_wall_secs = zero_f64;
    sample_interval_secs = zero_f64;
  };
  viz = record {
    enabled = false;
    show_progress = false;
    show_eta = false;
    show_nearest_tag = false;
    short_labels = false;
  };
}

abbrev pub small_spec : WorkflowSpec
small_spec = record {
  name = "small";
  entrypoint = "fan" ∷ [];
  nodes = ("fan", fan) ∷ [];
  runplan = record {
    limits = [];
    map_concurrency = none;
    budgets = no_budgets;
    goals = default_plan;
    grounding = record { trace_required = false };
  };
}

abbrev pub small_args : Value
small_args = json_object (("rows", array_of (number (pos_int 7) ∷ number (pos_int 8) ∷ [])) ∷ [])

abbrev small_world : RunWorld ℕ
small_world = first_world small_spec "r1" small_args 0

-- Opening this opens the steps of a node and of a run, for the runs below.
unfoldable pub all_steps : ℕ
unfolding execute_node ◌>>=◌ give try attempt on_ledger try_ledger reads the_ledger writes
    set_ledger asks record_output record_node_io peek emits json_object of_dict put insert set
    resolve resolve_bindings item_source_and_path split_dots trim has_prefix ledger_key_and_path
    store_outputs walk_path with_item_as with_item first_world run_planned decimal f64_arithmetic
    f64_lt session_id map_width check_known poll release build_trace
all_steps = 0

-- What an answer returns, and the world after it.
abbrev answered :
    {A : Type 0} → Result CoreError A × RunWorld ℕ → Answer ℕ A → Result CoreError A × RunWorld ℕ
answered d (returns p) = p
answered d hangs = d
answered d out_of_fuel = d

abbrev small_ctx : RunCtx
small_ctx = context small_spec small_args false

abbrev two_rows : List Value
two_rows = number (pos_int 7) ∷ number (pos_int 8) ∷ []

execute_map_parallel_lem_example :
    execute_map_parallel small_host small_ctx
      (execute_node small_host small_ctx 1)
      (child [] "fan")
      "item"
      ask
      two_rows
      2
      0
      small_world
    ≡ execute_map_serial small_host small_ctx
        (execute_node small_host small_ctx 1)
        (child [] "fan")
        "item"
        ask
        two_rows
        0
        small_world
unfolding all_steps
execute_map_parallel_lem_example =
    execute_map_parallel_lem small_host small_ctx 1 (child [] "fan") "item" (NodeKind.actor "judge")
      (("row", "item") ∷ []) [] 0 two_rows 2 small_world (refl, (refl, tt))

-- Two sessions that take turns.
abbrev talk : Node
talk =
    node (session_group "ledger.rows" "judge" ask (some (record { name = "turn"; permits = 1 }))) []
      []

abbrev turn_spec : WorkflowSpec
turn_spec = record {
  name = "turns";
  entrypoint = "talk" ∷ [];
  nodes = ("talk", talk) ∷ [];
  runplan = record small_spec.runplan { limits = ("turn", 1) ∷ [] };
}

abbrev turn_world : RunWorld ℕ
turn_world = first_world turn_spec "r2" small_args 0

abbrev turn_answer : Answer ℕ Value
turn_answer =
    execute_node small_host (context turn_spec small_args false) 2 (child [] "talk") talk none 0
      turn_world

abbrev turn_end : Result CoreError Value × RunWorld ℕ
turn_end = answered (ok null, turn_world) turn_answer

turn_returns : turn_answer ≡ returns turn_end
unfolding all_steps
turn_returns = refl

permits_given_back_example :
    permits_of "turn" turn_end.1.1.limits ≡ permits_of "turn" turn_world.1.limits
permits_given_back_example =
    permits_given_back small_host (context turn_spec small_args false) 2 talk (child [] "talk") none
      0 turn_world turn_end.1 turn_end.0 "turn" turn_returns

-- A workflow that branches to the fan.
abbrev choose : Node
choose = node (branch "ledger.rows" "fan" none) [] []

abbrev choice_ctx : RunCtx
choice_ctx = record small_ctx { nodes = ("choose", choose) ∷ ("fan", fan) ∷ [] }

abbrev choice_rank : String → ℕ
choice_rank id = if str_eq "choose" id then 1 else 0

choice_descends : BranchesDescend choice_ctx.nodes choice_rank
unfolding BranchesBelow
choice_descends id n e = elim (Bool-cases (str_eq "choose" id)) [
  | inl first ↦
      subst (λ (m : Node). BranchesBelow choice_ctx.nodes choice_rank (choice_rank id) m)
        (ap (λ (o : Option Node). unwrap_or o n) (rw first at e))
        (rw first ((λ k. omega arith), λ other o. cc))
  | inr not_first ↦ elim (Bool-cases (str_eq "fan" id)) [
    | inl second ↦
        subst (λ (m : Node). BranchesBelow choice_ctx.nodes choice_rank (choice_rank id) m)
          (ap (λ (o : Option Node). unwrap_or o n) (rw (not_first, second) at e)) tt
    | inr neither ↦ absurd (cc (rw (not_first, neither) at e))
  ]
]

execute_node_ends_example :
    let fuel = suc (choice_rank "choose") * max_depth choice_ctx.nodes in
    execute_node small_host choice_ctx fuel (child [] "choose") choose none 0 small_world
    ≢ out_of_fuel
execute_node_ends_example =
    execute_node_ends small_host choice_ctx choice_rank choice_descends "choose" choose
      (child [] "choose") none 0 small_world refl

-- One of two items fails, with half of them required.
abbrev half : F64
half = record { bits = 0x3fe0000000000000 }

abbrev half_results : List ItemResult
half_results = ok null ∷ err "no" ∷ []

abbrev half_info : NodeInfo
half_info = record {
  addr = record { run_id = "r"; node_path = []; iteration = 0; local_seq = 0 };
  label = "fan";
  inputs = map_inputs two_rows "item" 2 half;
  outputs = null;
  score = none;
  signal = some (map_signal 1 2 2 false);
  artifacts = [];
}

map_checks_lem_example :
    all (λ (c : InvariantCheck). c.ok) (node_checks no_text no_text half_info Children.none)
    ≡ leb (item_children Children.none) 2
unfolding is_gate_closed success_ratio f64_arithmetic f64_lt
map_checks_lem_example =
    map_checks_lem no_text no_text half_info Children.none two_rows "item" 2 half half_results false
      refl refl refl refl (omega arith) refl

-- What two calls recorded under one node.
abbrev call_at : ℕ → RecordedOutput
call_at n = record {
  addr = record { run_id = "r"; node_path = child [] "talk"; iteration = 0; local_seq = n };
  call = CallKind.actor "judge";
  outputs = null;
  score = none;
  signal = none;
  artifacts = [];
  grounding = Grounding.ungraded;
}

abbrev two_calls : List RecordedOutput
two_calls = call_at 2 ∷ call_at 1 ∷ []

abbrev trace_or : ProcessNode → Option ProcessNode → ProcessNode
trace_or d o = unwrap_or o d

abbrev pub no_trace : ProcessNode
no_trace = trace_root "" "" null null

abbrev calls_trace : ProcessNode
calls_trace = trace_or no_trace (build_trace "r" "w" null null two_calls [] [])

calls_traced : build_trace "r" "w" null null two_calls [] [] ≡ some calls_trace
unfolding build_trace
calls_traced = refl

build_trace_covers_example : (no_orphans_check no_text no_text calls_trace two_calls).ok ≡ true
build_trace_covers_example =
    build_trace_covers no_text no_text "r" "w" null null two_calls [] [] calls_trace calls_traced
