-- ===== src/Runner/Gate.antt =====
-- The gate of a map in the runner against the check of it in the manifest's self-check.
use jesterky.Json.Object.{get-of_dict}
use jesterky.F64.Laws.{finite-not_nan, add-not_nan}
use jesterky.Event.{Addr}
use jesterky.Json.{
  to_list-of_list, string, array_of, bool, pos_int, number, as_bool, as_f64, as_u64, as_array,
  as_object, Value,
}
use jesterky.F64.{epsilon, f64_add, lt-not_le, magnitude, is_finite, F64, is_nan}
use jesterky.Runner.Monad.{json_object}
use jesterky.Artifact.{
  item_children, InvariantCheck, Children, NodeInfo, over_check, fan_checks, node_checks, and_then,
  field, gate_holds,
}
use jesterky.Prelude.{
  [], ◌∷◌, ◌&&◌, ◌∙◌, ◌==◌, ap, leb, all, lookup, Dict, refl, some, true, Option, arith, is_ok, not,
  length-keep-le, false, length, ◌≡◌, ◌≤◌, String, Bool, ℕ, List,
}
use jesterky.Runner.Fan.{
  float_json, map_signal, count_ok, ItemResult, map_inputs, is_gate_closed, success_ratio,
}

epsilon_finite : is_finite epsilon ≡ true
unfolding is_finite magnitude
epsilon_finite = refl

count_ok-le : (results : List ItemResult) → count_ok results ≤ length results
count_ok-le results = length-keep-le is_ok results

-- The runner closes the gate of a map exactly if the self-check would refuse the map.
gate_agrees :
    (show_addr : Addr → String) (show_f64 : F64 → String) (results : List ItemResult) (total : ℕ)
    (cancelled : Bool) (min_success : F64)
    → is_nan min_success ≡ false
    → is_nan (success_ratio (count_ok results) total) ≡ false
    → length results ≤ total
    → gate_holds show_addr show_f64 (count_ok results) total cancelled min_success
      ≡ not (is_gate_closed cancelled (count_ok results) total min_success)
unfolding is_gate_closed gate_holds success_ratio
gate_agrees show_addr show_f64 results total cancelled min_success p q h =
    let ratio = success_ratio (count_ok results) total in
    ground (
      arith,
      h,
      count_ok-le results,
      lt-not_le (f64_add ratio epsilon) min_success (add-not_nan ratio epsilon q epsilon_finite) p,
    )

field-json : (key : String) (d : Dict Value) → field key (as_object (json_object d)) ≡ lookup key d
unfolding json_object
field-json key d = get-of_dict key d

float_json-as_f64 : (x : F64) → is_finite x ≡ true → as_f64 (float_json x) ≡ some x
float_json-as_f64 x h = rw h refl

module _ (show_addr : Addr → String) (show_f64 : F64 → String) (info : NodeInfo)
    (children : Children) where
  abbrev signal_field : String → Option Value
  signal_field key = field key (and_then info.signal as_object)

  abbrev input_field : String → Option Value
  input_field key = field key (as_object info.inputs)

  -- The verdict of the checks, from the fields that they read.
  checks_from :
      (total successes : ℕ) (items : List Value) (min_success : F64) (cancelled : Bool)
      → and_then (signal_field "total") as_u64 ≡ some total
      → and_then (signal_field "successes") as_u64 ≡ some successes
      → and_then (signal_field "cancelled") as_bool ≡ some cancelled
      → and_then (input_field "over") as_array ≡ some items
      → and_then (input_field "min_success") as_f64 ≡ some min_success
      → all (λ (c : InvariantCheck). c.ok) (node_checks show_addr show_f64 info children) ≡ (
          (length items == total)
          && (gate_holds show_addr show_f64 successes total cancelled min_success
              && (leb (item_children children) total && true)))
  unfolding node_checks fan_checks over_check
  checks_from total successes items min_success cancelled et es ec eo em =
      rw (node_checks, et, es, fan_checks, ec, eo, em, over_check) refl

-- The self-check reads back what `execute_map` notes of a map: if the gate let the map pass, the
-- collection's length is the total and the gate holds, so the checks of the map come down to its
-- number of item children. `min_success` is finite and the ratio of successes is a number.
pub map_checks_lem :
    (show_addr : Addr → String) (show_f64 : F64 → String) (info : NodeInfo) (children : Children)
    (items : List Value) (item_as : String) (width : ℕ) (min_success : F64)
    (results : List ItemResult) (cancelled : Bool)
    → info.inputs ≡ map_inputs items item_as width min_success
    → info.signal ≡ some (map_signal (count_ok results) (length items) (length results) cancelled)
    → is_finite min_success ≡ true
    → is_nan (success_ratio (count_ok results) (length items)) ≡ false
    → length results ≤ length items
    → is_gate_closed cancelled (count_ok results) (length items) min_success ≡ false
    → all (λ (c : InvariantCheck). c.ok) (node_checks show_addr show_f64 info children)
      ≡ leb (item_children children) (length items)
unfolding map_inputs map_signal
map_checks_lem show_addr show_f64 info children items item_as width min_success results cancelled ei
      es fin num few open_ =
    let signals : Dict Value =
      ("successes", number (pos_int (count_ok results)))
      ∷ ("total", number (pos_int (length items)))
      ∷ ("attempted", number (pos_int (length results)))
      ∷ ("cancelled", bool cancelled)
      ∷ [] in
    let inputs : Dict Value =
      ("over", array_of items)
      ∷ ("item_as", string item_as)
      ∷ ("concurrency", number (pos_int width))
      ∷ ("min_success", float_json min_success)
      ∷ [] in
    let signal_at : (key : String)
        → field key (and_then info.signal as_object) ≡ lookup key signals =
      λ key.
        ap (λ (o : Option Value). field key (and_then o as_object)) es ∙ field-json key signals in
    let input_at : (key : String) → field key (as_object info.inputs) ≡ lookup key inputs =
      λ key. ap (λ (v : Value). field key (as_object v)) ei ∙ field-json key inputs in
    checks_from show_addr show_f64 info children (length items) (count_ok results) items min_success
      cancelled (ap (λ (o : Option Value). and_then o as_u64) (signal_at "total"))
      (ap (λ (o : Option Value). and_then o as_u64) (signal_at "successes"))
      (ap (λ (o : Option Value). and_then o as_bool) (signal_at "cancelled"))
      (ap (λ (o : Option Value). and_then o as_array) (input_at "over")
        ∙ ap some (to_list-of_list items))
      (ap (λ (o : Option Value). and_then o as_f64) (input_at "min_success")
        ∙ float_json-as_f64 min_success fin)
    ∙ ground (
      arith,
      gate_agrees show_addr show_f64 results (length items) cancelled min_success
          (finite-not_nan min_success fin) num few,
      open_,
    )
