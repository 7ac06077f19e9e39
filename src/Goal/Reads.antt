-- ===== src/Goal/Reads.antt =====
-- Goals and nodes read the same ledger: the path of a goal against a `ledger.` reference.
use jesterky.Prelude.{
  ◌≡◌, refl, false, Option, none, some, List, [], ◌∷◌, String, arith, Result, ok, err, lookup,
  Option-cases, Result-cases, List-cases, inl, inr,
}
use jesterky.Prelude.Text.{trim, strip_prefix, split_dots, is_blank}
use jesterky.Json.{Value, null, bool, number, string, array, object}
use jesterky.Json.Object.{get-of_dict}
use jesterky.Ledger.{
  LedgerError, Ledger, Ref, Target, ledger_key_and_path, has_blank, walk_path, walk_segment,
  resolve, snapshot_json,
}
use jesterky.Ledger.Outputs.{resolve_slot, ledger_target}
use jesterky.Goal.Engine.{resolve_segments, resolve_path, step_into}

abbrev pub as_option : Result LedgerError Value → Option Value
as_option (ok v) = some v
as_option (err e) = none

resolve-none : (path : List String) → resolve_segments none path ≡ none
unfolding resolve_segments
resolve-none [] = refl
resolve-none (seg ∷ path) = refl

segment_agrees :
    (v : Value) (seg : String) (r : String) → step_into v seg ≡ as_option (walk_segment v seg r)
segment_agrees null seg r = refl
segment_agrees (bool b) seg r = refl
segment_agrees (number n) seg r = refl
segment_agrees (string s) seg r = refl
segment_agrees (array vs) seg r = ground arith
segment_agrees (object m) seg r = ground arith

segments_agree :
    (path : List String) (v : Value) (r : String)
    → has_blank path ≡ false
    → resolve_segments (some v) path ≡ as_option (walk_path v path r)
unfolding resolve_segments walk_path
segments_agree [] v r h = refl
segments_agree (seg ∷ path) v r h = elim (Result-cases (walk_segment v seg r)) [
  | inl (next, e) ↦ ground (arith, e, segment_agrees v seg r, segments_agree path next r)
  | inr (error, e) ↦ ground (arith, e, segment_agrees v seg r, resolve-none path)
]

target_parts :
    (raw rest : String) (target : Target)
    → strip_prefix "ledger." raw ≡ some rest
    → ledger_key_and_path raw ≡ ok target
    → (split_dots rest ≡ target.0 ∷ target.1)
      × (is_blank target.0 ≡ false)
      × (has_blank target.1 ≡ false)
unfolding ledger_key_and_path
target_parts raw rest target h k = elim (List-cases (split_dots rest)) [
  | inl e ↦ absurd (ground (arith, e))
  | inr (key, path, e) ↦ ground (arith, e)
]

resolve_missing :
    (from_str : String → Result String Value) (l : Ledger) (r : Ref) (target : Target)
    → ledger_key_and_path (trim r) ≡ ok target
    → lookup target.0 l.slots ≡ none
    → as_option (resolve from_str l r) ≡ none
unfolding resolve
resolve_missing from_str l r target parsed missing =
    let (not_item, prefixed) = ledger_target (trim r) target parsed in
    rw (not_item, prefixed, parsed, missing)

-- What a goal reads at a path of the ledger's snapshot is what a node reads at the reference
-- `ledger.` followed by that path: the same value, or none where the reference fails.
pub goal_reads_slot :
    (from_str : String → Result String Value) (l : Ledger) (r : Ref) (rest : String)
    (target : Target)
    → strip_prefix "ledger." (trim r) ≡ some rest
    → ledger_key_and_path (trim r) ≡ ok target
    → resolve_path (snapshot_json l) rest ≡ as_option (resolve from_str l r)
unfolding resolve_path snapshot_json
goal_reads_slot from_str l r rest target h parsed =
    let (parts, key_ok, path_ok) = target_parts (trim r) rest target h parsed in
    elim (Option-cases (lookup target.0 l.slots)) [
      | inl missing ↦ ground (
        arith,
        parts,
        key_ok,
        missing,
        get-of_dict target.0 l.slots,
        resolve-none target.1,
        resolve_missing from_str l r target parsed missing,
      )
      | inr (root, found) ↦ ground (
        arith,
        parts,
        key_ok,
        found,
        get-of_dict target.0 l.slots,
        segments_agree target.1 root r path_ok,
        resolve_slot from_str l r target root parsed found,
      )
    ]
