-- ===== src/Tests/GoalRuns.antt =====
-- A plan of two goals and its verdict, crates/jesterky-contract/src/goal.rs.

use jesterky.Json.Equality.{value_eq}
use jesterky.Goal.Counts.{snapshot_state, blocks}
use jesterky.Prelude.Text.{split_dots}
use jesterky.F64.{one_f64, F64}
use jesterky.Json.{pos_int, empty, number, bool, member, object, Value}
use jesterky.Ledger.{Ledger}
use jesterky.Goal.{
  met, unmet, count_goal, resolve_path, evaluate_pred, GoalSpec, status_of, ledger_pred,
  metric_threshold, default_plan, run_goals, GoalPlan, snapshot, evaluate, GoalKind,
}
use jesterky.Prelude.{
  [], false, any, refl, none, ◌∷◌, if◌then◌else◌, map, true, err, some, ◌≡◌, Bool, Result, Option,
  String,
}

abbrev no_value : Value → String
no_value v = ""

abbrev no_f64 : F64 → String
no_f64 x = ""

abbrev no_text : String → Result String Value
no_text s = err "expected value"

abbrev report_done : GoalKind
report_done = ledger_pred "report.done" (bool true)

abbrev some_score : GoalKind
some_score = metric_threshold "score" one_f64

abbrev goal_of : String → GoalKind → Bool → GoalSpec
goal_of id kind required = record {
  id = id;
  kind = kind;
  required = required;
  label = none;
  show_progress = true;
}

abbrev two_goals : GoalPlan
two_goals = record default_plan {
  goals = goal_of "report" report_done true ∷ goal_of "score" some_score false ∷ [];
}

abbrev done_ledger : Ledger
done_ledger = record {
  slots = ("report", object (member "done" (bool true) empty)) ∷ ("score", number (pos_int 3)) ∷ [];
  current_items = [];
}

abbrev slots_json : Value
slots_json = object (
    member "report" (object (member "done" (bool true) empty))
      (member "score" (number (pos_int 3)) empty))

snapshot_runs : (snapshot no_value no_f64 "r1" two_goals slots_json).state ≡ met
unfolding snapshot run_goals status_of evaluate evaluate_pred resolve_path value_eq split_dots
    count_goal
snapshot_runs = refl

snapshot_state_example :
    let s = snapshot no_value no_f64 "r1" two_goals slots_json in
    (s.items ≡ map (status_of no_value no_f64 slots_json) two_goals.goals)
    × (s.state ≡ (if any blocks s.items then unmet else met))
snapshot_state_example = snapshot_state no_value no_f64 slots_json "r1" two_goals

abbrev three : Option Value
three = some (number (pos_int 3))
