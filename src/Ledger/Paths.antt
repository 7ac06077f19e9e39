-- ===== src/Ledger/Paths.antt =====
-- Walking into a value and writing into one: `walk_path`, `store_json_path` and
-- `store_ledger_path` of crates/jesterky-core/src/ledger.rs. A write through `&mut` returns its
-- result and what stands there after the call.
use Prim.Native.String.{◌++◌}
use jesterky.Prelude.{
  List, [], ◌∷◌, String, Result, ok, err, ok_or, ◌>>=◌, get_elem?, unwrap_or, Dict, lookup, insert,
}
use jesterky.Prelude.Text.{parse_usize, join_dots, decimal}
use jesterky.Json.{Value, Members, array, object, empty, to_list}
use jesterky.Json.Object.{get, put}
use jesterky.Ledger.Refs.{LedgerError, bad_path, type_mismatch}

-- One segment of the walk.
abbrev pub walk_segment : Value → String → String → Result LedgerError Value
walk_segment (object m) segment original =
    ok_or (get segment m) (bad_path original ("missing object key `" ++ (segment ++ "`")))
walk_segment (array vs) segment original = do
  index ←
      ok_or (parse_usize segment)
        (bad_path original ("array segment `" ++ (segment ++ "` is not an index")))
  ok_or (get_elem? (to_list vs) index)
      (bad_path original ("array index " ++ (decimal index ++ " out of bounds")))
walk_segment _ segment original = err (type_mismatch original)

unfoldable pub walk_path : Value → List String → String → Result LedgerError Value
walk_path current [] original = ok current
walk_path current (segment ∷ path) original = do
  next ← walk_segment current segment original
  walk_path next path original

-- What an assignment through `&mut` leaves behind.
abbrev pub Written : Type 0 → Type 0
Written S = Result LedgerError Unit × S

abbrev member_or_new : String → Members → Value
member_or_new key m = unwrap_or (get key m) (object empty)

-- The member at `key` after the call on it, inside the object that holds it.
abbrev back_in : String → Members → Written Value → Written Value
back_in key m (res, next) = (res, object (put key next m))

abbrev pub not_an_object : List String → Value → Written Value
not_an_object path current = (err (type_mismatch (join_dots path)), current)

unfoldable pub store_json_path : Value → List String → Value → Written Value
store_json_path current [] value = (ok tt, value)
store_json_path (object m) (key ∷ []) value = (ok tt, object (put key value m))
store_json_path (object m) (key ∷ next ∷ path) value =
    back_in key m (store_json_path (member_or_new key m) (next ∷ path) value)
store_json_path current (key ∷ path) value = not_an_object (key ∷ path) current

abbrev root_or_new : String → Dict Value → Value
root_or_new key slots = unwrap_or (lookup key slots) (object empty)

abbrev back_in_slots : String → Dict Value → Written Value → Written (Dict Value)
back_in_slots key slots (res, root) = (res, insert key root slots)

unfoldable pub store_ledger_path : Dict Value → String → List String → Value → Written (Dict Value)
unfolding store_json_path
store_ledger_path slots key [] value = (ok tt, insert key value slots)
store_ledger_path slots key (segment ∷ path) value =
    back_in_slots key slots (store_json_path (root_or_new key slots) (segment ∷ path) value)
