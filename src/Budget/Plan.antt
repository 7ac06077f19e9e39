-- ===== src/Budget/Plan.antt =====
-- The defaults of a plan of caps, its labels and its overlay, crates/jesterky-contract/src/budget.rs.
use Prim.Native.String.{◌++◌}
use jesterky.Prelude.{
  ◌≡◌, refl, Bool, true, Option, none, some, List, [], ◌∷◌, String, Result, ok, err, ◌>>=◌,
  if◌then◌else◌,
}
use jesterky.F64.{f64_of, one_f64}
use jesterky.Json.{Value, object, empty, is_object}
use jesterky.Overlay.{OverlayError, invalid_overlay, with_message, json_type, deep_merge_json}
use jesterky.Budget.Defs.{
  BudgetKind, actor_calls, tokens, wall_seconds, BudgetCap, BudgetEtaConfig, all, BudgetVizConfig,
  BudgetPlan,
}
use jesterky.Budget.Engine.{kind_eq, kind_name}

unfoldable pub default_eta : BudgetEtaConfig
default_eta = record {
  enabled = true;
  mode = all;
  min_wall_secs = one_f64;
  -- 0.45
  sample_interval_secs = record { bits = 0x3fdccccccccccccd };
}

unfoldable pub default_viz : BudgetVizConfig
default_viz = record {
  enabled = true;
  show_progress = true;
  show_eta = true;
  show_nearest_tag = true;
  short_labels = true;
}

unfoldable pub default_plan : BudgetPlan
unfolding default_eta default_viz
default_plan = record {
  caps = [];
  warning_percent = f64_of 80;
  fail_on_hard_exhaust = true;
  eta = default_eta;
  viz = default_viz;
}

abbrev find_kind : BudgetKind → List BudgetCap → Option BudgetCap
find_kind kind [] = none
find_kind kind (cap ∷ caps) = if kind_eq cap.kind kind then some cap else find_kind kind caps

-- `BudgetPlan::get`
unfoldable pub cap_of : BudgetPlan → BudgetKind → Option BudgetCap
cap_of plan kind = find_kind kind plan.caps

unfoldable pub short_name : BudgetKind → String
short_name actor_calls = "calls"
short_name tokens = "tok"
short_name wall_seconds = "wall"

abbrev label_or : Bool → BudgetKind → Option String → String
unfolding short_name
label_or short kind (some label) = label
label_or short kind none = if short then short_name kind else kind_name kind

unfoldable pub panel_label_for : BudgetPlan → BudgetCap → String
unfolding label_or
panel_label_for plan cap = label_or plan.viz.short_labels cap.kind cap.label

-- `to_value` and `from_value` are serde's, with the text of their errors.
module _ (to_value : BudgetPlan → Result String Value)
    (from_value : Value → Result String BudgetPlan) where
  unfoldable pub overlay_json : BudgetPlan → Value → Result OverlayError BudgetPlan
  unfolding deep_merge_json
  overlay_json plan overlay =
      if is_object overlay
      then (do
        base ← with_message "budget" "failed to serialize base plan: " (to_value plan)
        with_message "budget" "" (from_value (deep_merge_json base overlay)))
      else err (invalid_overlay "budget" ("expected JSON object, got " ++ json_type overlay))

-- A plan that serde reads back as it was is left alone by an overlay without members.
pub overlay_json-empty :
    (to_value : BudgetPlan → Result String Value) (from_value : Value → Result String BudgetPlan)
    (plan : BudgetPlan) (written : Value)
    → is_object written ≡ true
    → to_value plan ≡ ok written
    → from_value written ≡ ok plan
    → overlay_json to_value from_value plan (object empty) ≡ ok plan
unfolding overlay_json deep_merge_json
overlay_json-empty to_value from_value plan (object m) is w r = rw (w, r) refl
overlay_json-empty to_value from_value plan _ is w r = cc
