-- ===== src/Json/Object.antt =====
-- The map of a JSON object: lookup and insertion by key, and its laws.
use Prim.Native.String.{compare}
use text.Mathlib.Text.{is_lt}
use jesterky.Prelude.{
  ◌≡◌, refl, Bool, true, false, inl, inr, Bool-cases, Option, none, some, [], ◌∷◌, String, str_eq,
  eq_iff, arith, Dict, lookup, is_some, unwrap_or, if◌then◌else◌,
}
use jesterky.Json.{Value, Members, empty, member, object, null}

-- `map.get(key)`
abbrev pub get : String → Members → Option Value
get k empty = none
get k (member j v m) = if str_eq j k then some v else get k m

abbrev pub has : String → Members → Bool
has k m = is_some (get k m)

replace : String → Value → Members → Members
replace k v empty = empty
replace k v (member j w m) = if str_eq j k then member j v m else member j w (replace k v m)

unfoldable pub insert_new : String → Value → Members → Members
insert_new k v empty = member k v empty
insert_new k v (member j w m) =
    if is_lt (compare k j) then member k v (member j w m) else member j w (insert_new k v m)

-- `map.insert(key, value)`: a key that is there keeps its place.
unfoldable pub put : String → Value → Members → Members
unfolding replace insert_new
put k v m = if has k m then replace k v m else insert_new k v m

get-replace :
    (k j : String) (v : Value) (m : Members)
    → has k m ≡ true
    → get j (replace k v m) ≡ (if str_eq k j then some v else get j m)
unfolding replace
get-replace k j v empty h = cc
get-replace k j v (member i w m) h =
    ground (arith, eq_iff k j, eq_iff i k, eq_iff i j, get-replace k j v m)

get-insert_new :
    (k j : String) (v : Value) (m : Members)
    → has k m ≡ false
    → get j (insert_new k v m) ≡ (if str_eq k j then some v else get j m)
unfolding insert_new
get-insert_new k j v empty h = refl
get-insert_new k j v (member i w m) h =
    ground (arith, eq_iff k j, eq_iff i k, eq_iff i j, get-insert_new k j v m)

pub get-put :
    (k j : String) (v : Value) (m : Members)
    → get j (put k v m) ≡ (if str_eq k j then some v else get j m)
unfolding put
get-put k j v m = elim (Bool-cases (has k m)) [
  | inl old ↦ rw old (get-replace k j v m old)
  | inr new ↦ rw new (get-insert_new k j v m new)
]

replace_self : (k : String) (v : Value) (m : Members) → get k m ≡ some v → replace k v m ≡ m
unfolding replace
replace_self k v empty h = refl
replace_self k v (member i w m) h = ground (arith, replace_self k v m)

-- Writing back what is there changes nothing.
pub put_self : (k : String) (v : Value) (m : Members) → get k m ≡ some v → put k v m ≡ m
unfolding put
put_self k v m h = ground (arith, replace_self k v m h)

-- `map.is_empty()`
abbrev pub is_empty_map : Members → Bool
is_empty_map empty = true
is_empty_map (member k v m) = false

-- A `Dict` collected into a map of values.
unfoldable pub of_dict : Dict Value → Members
of_dict [] = empty
of_dict ((k, v) ∷ d) = put k v (of_dict d)

pub get-of_dict : (k : String) (d : Dict Value) → get k (of_dict d) ≡ lookup k d
unfolding of_dict
get-of_dict k [] = refl
get-of_dict k ((j, v) ∷ d) = ground (arith, get-put j k v (of_dict d), get-of_dict k d)

-- The members as a `Dict`, in their order.
abbrev pub entries : Members → Dict Value
entries empty = []
entries (member k v m) = (k, v) ∷ entries m

pub lookup-entries : (k : String) (m : Members) → lookup k (entries m) ≡ get k m
lookup-entries k empty = refl
lookup-entries k (member j v m) = ground (arith, lookup-entries k m)

-- `&value[key]`: null where there is no such member.
abbrev pub at_key : String → Value → Value
at_key k (object m) = unwrap_or (get k m) null
at_key k _ = null

-- `value.get(key)`
abbrev pub value_get : String → Value → Option Value
value_get k (object m) = get k m
value_get k _ = none
