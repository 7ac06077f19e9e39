-- ===== src/Ledger/Store.antt =====
-- Writing outputs into the ledger and reading them back.
use jesterky.Prelude.{
  unwrap_or, ◌≡◌, ◌≢◌, refl, some, List, [], ◌∷◌, String, eq_iff, eq_refl, arith, Dict, lookup,
  lookup-insert, insert_self, inl, inr, Option-cases, Result, ok, err,
}
use jesterky.Json.{Value, Members, null, bool, number, string, array, object, empty}
use jesterky.Json.Object.{get, put, get-put, put_self}
use jesterky.Ledger.Refs.{LedgerError}
use jesterky.Ledger.Paths.{walk_path, store_json_path, store_ledger_path}

abbrev pub Ok : Result LedgerError Unit
Ok = ok tt

found : (key : String) (v : Value) (m : Members) → get key (put key v m) ≡ some v
found key v m = ground (arith, get-put key key v m, eq_refl key)

-- After a successful write the value is found at the path that was written.
pub walk-store_json :
    (current : Value) (path : List String) (value : Value) (original : String)
    → (store_json_path current path value).0 ≡ Ok
    → walk_path (store_json_path current path value).1 path original ≡ ok value
unfolding store_json_path walk_path
walk-store_json current [] value original h = refl
walk-store_json (object m) (key ∷ []) value original h =
    ground (arith, get-put key key value m, eq_refl key)
walk-store_json (object m) (key ∷ next ∷ path) value original h =
    let old = unwrap_or (get key m) (object empty) in
    let new = (store_json_path old (next ∷ path) value).1 in
    rw (found key new m) (walk-store_json old (next ∷ path) value original h)
walk-store_json null (key ∷ path) value original h = cc
walk-store_json (bool b) (key ∷ path) value original h = cc
walk-store_json (number n) (key ∷ path) value original h = cc
walk-store_json (string s) (key ∷ path) value original h = cc
walk-store_json (array vs) (key ∷ path) value original h = cc

-- A write into a new object cannot fail.
store-new :
    (path : List String) (value : Value) → (store_json_path (object empty) path value).0 ≡ Ok
unfolding store_json_path
store-new [] value = refl
store-new (key ∷ []) value = refl
store-new (key ∷ next ∷ path) value = store-new (next ∷ path) value

-- A write that fails leaves the value as it was.
pub store_json_error :
    (current : Value) (path : List String) (value : Value) (e : LedgerError)
    → (store_json_path current path value).0 ≡ err e
    → (store_json_path current path value).1 ≡ current
unfolding store_json_path
store_json_error current [] value e h = cc
store_json_error (object m) (key ∷ []) value e h = cc
store_json_error (object m) (key ∷ next ∷ path) value e h = elim (Option-cases (get key m)) [
  | inl new ↦ absurd (ground (arith, new, store-new (next ∷ path) value))
  | inr (old, known) ↦
      ground (arith, store_json_error old (next ∷ path) value e, put_self key old m known)
]
store_json_error null (key ∷ path) value e h = refl
store_json_error (bool b) (key ∷ path) value e h = refl
store_json_error (number n) (key ∷ path) value e h = refl
store_json_error (string s) (key ∷ path) value e h = refl
store_json_error (array vs) (key ∷ path) value e h = refl

-- A write into a slot leaves every other slot alone.
pub lookup-store_ledger_ne :
    (slots : Dict Value) (key : String) (path : List String) (value : Value) (k : String)
    → key ≢ k
    → lookup k (store_ledger_path slots key path value).1 ≡ lookup k slots
unfolding store_ledger_path
lookup-store_ledger_ne slots key [] value k ne =
    ground (arith, lookup-insert key k value slots, eq_iff key k)
lookup-store_ledger_ne slots key (segment ∷ path) value k ne =
    let root =
      (store_json_path (unwrap_or (lookup key slots) (object empty)) (segment ∷ path) value).1 in
    ground (arith, lookup-insert key k root slots, eq_iff key k)

-- A failed write leaves all slots as they were.
pub store_ledger_error :
    (slots : Dict Value) (key : String) (path : List String) (value : Value) (e : LedgerError)
    → (store_ledger_path slots key path value).0 ≡ err e
    → (store_ledger_path slots key path value).1 ≡ slots
unfolding store_ledger_path
store_ledger_error slots key [] value e h = cc
store_ledger_error slots key (segment ∷ path) value e h = elim (Option-cases (lookup key slots)) [
  | inl new ↦ absurd (ground (arith, new, store-new (segment ∷ path) value))
  | inr (old, known) ↦
      ground (arith, store_json_error old (segment ∷ path) value e, insert_self key old slots known)
]

-- After a successful write the slot holds a value in which the written one is found.
pub walk-store_ledger :
    (slots : Dict Value) (key : String) (path : List String) (value : Value) (original : String)
    → (store_ledger_path slots key path value).0 ≡ Ok
    → (root : Value) × (lookup key (store_ledger_path slots key path value).1 ≡ some root)
      × (walk_path root path original ≡ ok value)
unfolding store_ledger_path
walk-store_ledger slots key [] value original h = (
  value,
  ground (arith, lookup-insert key key value slots, eq_refl key),
  unfold walk_path in refl,
)
walk-store_ledger slots key (segment ∷ path) value original h =
    let old = unwrap_or (lookup key slots) (object empty) in
    let root = (store_json_path old (segment ∷ path) value).1 in
    (
      root,
      ground (arith, lookup-insert key key root slots, eq_refl key),
      walk-store_json old (segment ∷ path) value original h,
    )
