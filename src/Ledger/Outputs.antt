-- ===== src/Ledger/Outputs.antt =====
-- `store_outputs` against `resolve`: what a node writes is what later references read.
use Prim.Native.Char.{code}
use Prim.Native.String.{[], ◌∷◌}
use text.Mathlib.TextEquality.{Char-path}
use jesterky.Prelude.{
  ◌∙◌, ◌≡◌, refl, true, none, some, List, String, arith, lookup, inl, inr, Bool-cases, Option-cases,
  Result-cases, Result, ok, ==_iff, ◌==◌,
}
use jesterky.Prelude.Text.{trim, strip_prefix, split_dots, has_prefix}
use jesterky.Json.{Value}
use jesterky.Ledger.Refs.{item_source_and_path, ledger_key_and_path}
use jesterky.Ledger.Paths.{walk_path, store_ledger_path}
use jesterky.Ledger.State.{Ledger, Ref, Target, resolve, store_outputs, result_field, output_of}
use jesterky.Ledger.Store.{Ok, walk-store_ledger}

-- A text in front of another.
abbrev glue : String → String → String
glue [] s = s
glue (c ∷ p) s = c ∷ glue p s

glue-strip_prefix : (p s rest : String) → strip_prefix p s ≡ some rest → s ≡ glue p rest
unfolding strip_prefix
glue-strip_prefix [] s rest h = ground arith
glue-strip_prefix (c ∷ p) [] rest h = cc
glue-strip_prefix (c ∷ p) (d ∷ s) rest h = elim (Bool-cases (code c == code d)) [
  | inl same ↦
      ground (arith, Char-path c d ((==_iff (code c) (code d)).0 same), glue-strip_prefix p s rest)
  | inr other ↦ absurd (ground (arith, other))
]

-- A reference into the ledger is never read as a reference to an item.
ledger_not_item : (rest : String) → item_source_and_path (glue "ledger." rest) ≡ none
unfolding item_source_and_path split_dots
ledger_not_item rest = refl

pub ledger_target :
    (raw : String) (target : Target)
    → ledger_key_and_path raw ≡ ok target
    → (item_source_and_path raw ≡ none) × (has_prefix "ledger." raw ≡ true)
unfolding ledger_key_and_path has_prefix
ledger_target raw target h = elim (Option-cases (strip_prefix "ledger." raw)) [
  | inl none_read ↦ absurd (ground (arith, none_read))
  | inr (rest, e) ↦
      (rw (glue-strip_prefix "ledger." raw rest e) (ledger_not_item rest), ground arith)
]

-- The two halves of a round of `store_outputs` that reaches its write.
output_of_ok :
    (field : String) (dest : Ref) (result value : Value) (target : Target)
    → output_of field dest result ≡ ok (value, target)
    → (result_field field result ≡ some value) × (ledger_key_and_path (trim dest) ≡ ok target)
output_of_ok field dest result value target h = ground arith

pub resolve_slot :
    (from_str : String → Result String Value) (l : Ledger) (dest : Ref) (target : Target)
    (root : Value)
    → ledger_key_and_path (trim dest) ≡ ok target
    → lookup target.0 l.slots ≡ some root
    → resolve from_str l dest ≡ walk_path root target.1 dest
unfolding resolve
resolve_slot from_str l dest target root parsed found =
    let (not_item, prefixed) = ledger_target (trim dest) target parsed in
    rw (not_item, prefixed, parsed, found)

one_output :
    (l : Ledger) (field : String) (dest : Ref) (result value : Value) (target : Target)
    → output_of field dest result ≡ ok (value, target)
    → let w = store_ledger_path l.slots target.0 target.1 value in
      store_outputs l (List.◌∷◌ (field, dest) List.[]) result ≡ (w.0, record l { slots = w.1 })
unfolding store_outputs
one_output l field dest result value target e =
    elim (Result-cases (store_ledger_path l.slots target.0 target.1 value).0) [
      | inl (done, w) ↦ ground (arith, e, w)
      | inr (error, w) ↦ ground (arith, e, w)
    ]

-- A node that has stored its one output makes its destination resolve to that field of its result.
pub resolve-store_outputs :
    (from_str : String → Result String Value) (l : Ledger) (field : String) (dest : Ref)
    (result : Value)
    → (store_outputs l (List.◌∷◌ (field, dest) List.[]) result).0 ≡ Ok
    → let (res, l') = store_outputs l (List.◌∷◌ (field, dest) List.[]) result in
      (value : Value) × (result_field field result ≡ some value)
      × (resolve from_str l' dest ≡ ok value)
resolve-store_outputs from_str l field dest result h =
    elim (Result-cases (output_of field dest result)) [
      | inl ((value, target), e) ↦
          let one = one_output l field dest result value target e in
          let (stored, parsed) = output_of_ok field dest result value target e in
          let (root, found, walked) =
            walk-store_ledger l.slots target.0 target.1 value dest (rw one at h) in
          (value, stored, rw one (resolve_slot from_str _ dest target root parsed found ∙ walked))
      | inr (error, e) ↦ absurd (unfold store_outputs in ground (arith, e))
    ]
