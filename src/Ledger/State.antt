-- ===== src/Ledger/State.antt =====
-- The ledger and its operations, crates/jesterky-core/src/ledger.rs.
use Prim.Native.String.{◌++◌}
use jesterky.Prelude.{
  Bool, true, false, Option, none, some, List, [], ◌∷◌, String, str_eq, Result, ok, err, ok_or,
  ◌>>=◌, if◌then◌else◌, Dict, lookup, insert, remove,
}
use jesterky.Prelude.Text.{trim, has_prefix}
use jesterky.Json.{Value, Members, object, empty}
use jesterky.Json.Object.{get, put, of_dict}
use jesterky.Ledger.Refs.{
  LedgerError, unknown_source, missing_slot, malformed_literal, item_source_and_path,
  ledger_key_and_path,
}
use jesterky.Ledger.Paths.{Written, walk_path, store_ledger_path}

pub record Ledger : Type 0 where
  pub slots : Dict Value
  pub current_items : Dict Value

-- `Ledger::new`
abbrev pub new : Ledger
new = record { slots = []; current_items = [] }

-- `struct Ref(pub String)`, and `Bindings`.
abbrev pub Ref : Type 0
Ref = String

abbrev pub Bindings : Type 0
Bindings = Dict Ref

pub record ItemBindingRestore : Type 0 where
  pub previous : List (String × Option Value)

abbrev bound_names : String → List String
bound_names name = if str_eq name "item" then name ∷ [] else name ∷ "item" ∷ []

-- The loop of `bind_item`: each insert hands back what it replaced.
bind_names : List String → Value → Dict Value → List (String × Option Value) × Dict Value
bind_names [] item items = ([], items)
bind_names (name ∷ names) item items =
    let (previous, items') = bind_names names item (insert name item items) in
    ((name, lookup name items) ∷ previous, items')

unfoldable pub bind_item : Ledger → String → Value → ItemBindingRestore × Ledger
unfolding bind_names
bind_item l name item =
    let (previous, items) = bind_names (bound_names name) item l.current_items in
    (record { previous = previous }, record l { current_items = items })

abbrev pub put_back : String → Option Value → Dict Value → Dict Value
put_back name (some value) items = insert name value items
put_back name none items = remove name items

restore_names : List (String × Option Value) → Dict Value → Dict Value
restore_names [] items = items
restore_names ((name, previous) ∷ rest) items = restore_names rest (put_back name previous items)

unfoldable pub restore_item : Ledger → ItemBindingRestore → Ledger
unfolding restore_names
restore_item l restore = record l { current_items = restore_names restore.previous l.current_items }

unfoldable pub with_item_as : Ledger → String → Value → Ledger
unfolding bind_item
with_item_as l name item = (bind_item l name item).1

unfoldable pub with_item : Ledger → Value → Ledger
unfolding with_item_as
with_item l item = with_item_as l "item" item

-- `Ledger::set`, `Ledger::get`
unfoldable pub set : Ledger → String → Value → Ledger
set l key value = record l { slots = insert key value l.slots }

unfoldable pub get_slot : Ledger → String → Option Value
get_slot l key = lookup key l.slots

unfoldable pub snapshot_json : Ledger → Value
snapshot_json l = object (of_dict l.slots)

-- `result.as_object().and_then(|object| object.get(field))`
abbrev pub result_field : String → Value → Option Value
result_field field (object m) = get field m
result_field field _ = none

abbrev pub Target : Type 0
Target = String × List String

-- One round of the loop in `store_outputs`, up to the write.
abbrev pub output_of : String → Ref → Value → Result LedgerError (Value × Target)
output_of field dest result = do
  value ← ok_or (result_field field result) (missing_slot ("result." ++ field))
  target ← ledger_key_and_path (trim dest)
  ok (value, target)

abbrev write_output : Result LedgerError (Value × Target) → Dict Value → Written (Dict Value)
write_output (ok (value, target)) slots = store_ledger_path slots target.0 target.1 value
write_output (err e) slots = (err e, slots)

abbrev pub written_ok : Written (Dict Value) → Bool
written_ok (ok done, slots) = true
written_ok (err e, slots) = false

-- A round that fails ends the loop; what the earlier rounds wrote stays.
unfoldable pub store_each : Bindings → Value → Dict Value → Written (Dict Value)
store_each [] result slots = (ok tt, slots)
store_each ((field, dest) ∷ outputs) result slots =
    let w = write_output (output_of field dest result) slots in
    let rest = store_each outputs result w.1 in if written_ok w then rest else w

abbrev with_slots : Ledger → Written (Dict Value) → Written Ledger
with_slots l (res, slots) = (res, record l { slots = slots })

unfoldable pub store_outputs : Ledger → Bindings → Value → Written Ledger
unfolding store_each
store_outputs l outputs result = with_slots l (store_each outputs result l.slots)

-- `from_str` is `serde_json::from_str`, with the text of its error.
module _ (from_str : String → Result String Value) where
  abbrev item_value : Ledger → Ref → Target → Result LedgerError Value
  item_value l r (source, path) = do
    item ← ok_or (lookup source l.current_items) (unknown_source source)
    walk_path item path r

  abbrev slot_value : Ledger → Ref → Result LedgerError Value
  slot_value l r = do
    target ← ledger_key_and_path (trim r)
    value ← ok_or (lookup target.0 l.slots) (missing_slot target.0)
    walk_path value target.1 r

  abbrev literal : Ref → Result String Value → Result LedgerError Value
  literal r (ok value) = ok value
  literal r (err message) = err (malformed_literal r message)

  abbrev resolve_from : Ledger → Ref → Option Target → Result LedgerError Value
  resolve_from l r (some target) = item_value l r target
  resolve_from l r none =
      if has_prefix "ledger." (trim r) then slot_value l r else literal r (from_str (trim r))

  unfoldable pub resolve : Ledger → Ref → Result LedgerError Value
  resolve l r = resolve_from l r (item_source_and_path (trim r))

  unfoldable pub resolve_each : Ledger → Bindings → Members → Result LedgerError Members
  resolve_each l [] resolved = ok resolved
  resolve_each l ((name, r) ∷ b) resolved = do
    value ← resolve l r
    resolve_each l b (put name value resolved)

  abbrev as_inputs : Result LedgerError Members → Result LedgerError Value
  as_inputs (ok m) = ok (object m)
  as_inputs (err e) = err e

  unfoldable pub resolve_bindings : Ledger → Bindings → Result LedgerError Value
  unfolding resolve_each
  resolve_bindings l b = as_inputs (resolve_each l b empty)
