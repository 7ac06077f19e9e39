-- ===== src/Tests/LedgerRuns.antt =====
-- A node's inputs and outputs, crates/jesterky-core/src/ledger.rs, and a plan's overlay.

-- No text is a JSON document.
use jesterky.Ledger.Outputs.{resolve-store_outputs}
use jesterky.Ledger.Inputs.{resolve_bindings_ok}
use jesterky.Json.Object.{put, get}
use jesterky.Prelude.Text.{has_prefix, join_dots, split_dots, strip_prefix, trim}
use jesterky.Ledger.Store.{walk-store_ledger, store_ledger_error}
use jesterky.Ledger.Items.{restore-bind, is_bound}
use jesterky.Ledger.{
  result_field, item_source_and_path, type_mismatch, walk_path, ledger_key_and_path,
  store_json_path, store_each, resolve_each, bind_item, store_ledger_path, Ledger, Bindings,
  resolve, store_outputs, resolve_bindings, restore_item,
}
use jesterky.Prelude.{
  refl, insert, ok, if◌then◌else◌, some, [], err, Result, ◌≡◌, ◌∷◌, String, List, lookup,
}
use jesterky.Json.{pos_int, empty, string, number, member, object, Members, Value}

abbrev no_json : String → Result String Value
no_json s = err "expected value"

abbrev job : Value
job = object (member "name" (string "scan") empty)

abbrev one_slot : Ledger
one_slot = record { slots = ("report", job) ∷ []; current_items = [] }

abbrev result : Value
result = object (member "rows" (number (pos_int 3)) empty)

store_outputs_runs : store_outputs one_slot (("rows", "ledger.report.rows") ∷ []) result ≡ (
  ok tt,
  record {
    slots =
        (
          "report",
          object (member "name" (string "scan") (member "rows" (number (pos_int 3)) empty)),
        )
        ∷ [];
    current_items = [];
  },
)
unfolding store_outputs store_each store_ledger_path store_json_path ledger_key_and_path trim
    strip_prefix split_dots insert put
store_outputs_runs = refl

resolve-store_outputs_example :
    let (res, l') = store_outputs one_slot (("rows", "ledger.report.rows") ∷ []) result in
    (value : Value) × (result_field "rows" result ≡ some value)
    × (resolve no_json l' "ledger.report.rows" ≡ ok value)
unfolding store_outputs store_each store_ledger_path store_json_path ledger_key_and_path trim
    strip_prefix split_dots
resolve-store_outputs_example =
    resolve-store_outputs no_json one_slot "rows" "ledger.report.rows" result refl

abbrev rows_path : List String
rows_path = "rows" ∷ []

walk-store_ledger_example :
    (root : Value) × (lookup "report" (store_ledger_path one_slot.slots "report" rows_path job).1
      ≡ some root)
    × (walk_path root rows_path "ledger.report.rows" ≡ ok job)
unfolding store_ledger_path store_json_path
walk-store_ledger_example =
    walk-store_ledger one_slot.slots "report" rows_path job "ledger.report.rows" refl

store_ledger_error_example :
    (store_ledger_path one_slot.slots "report" ("name" ∷ "first" ∷ []) job).1 ≡ one_slot.slots
unfolding store_ledger_path store_json_path join_dots
store_ledger_error_example =
    store_ledger_error one_slot.slots "report" ("name" ∷ "first" ∷ []) job (type_mismatch "first")
      refl

restore-bind_example :
    let back = restore_item one_slot (bind_item one_slot "job" job).0 in
    (lookup "job" back.current_items ≡ (
      if is_bound "job" "job"
      then lookup "job" one_slot.current_items
      else lookup "job" one_slot.current_items))
    × (back.slots ≡ one_slot.slots)
restore-bind_example = restore-bind one_slot one_slot "job" job "job"

abbrev two_inputs : Bindings
two_inputs = ("title", "ledger.report.name") ∷ ("all", "ledger.report") ∷ []

resolve_bindings_ok_example :
    (m : Members) × (v : Value) × (object (member "all" job (member "title" (string "scan") empty))
      ≡ object m)
    × (resolve no_json one_slot "ledger.report.name" ≡ ok v)
    × (get "title" m ≡ some v)
unfolding resolve_bindings resolve_each resolve walk_path ledger_key_and_path trim strip_prefix
    split_dots item_source_and_path put has_prefix
resolve_bindings_ok_example =
    resolve_bindings_ok no_json one_slot two_inputs
      (object (member "all" job (member "title" (string "scan") empty))) "title"
      "ledger.report.name" (refl, (refl, tt)) refl refl
