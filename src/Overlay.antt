-- ===== src/Overlay.antt =====
-- Run-time overlays of a plan: `deep_merge_json` and `json_type`, which
-- crates/jesterky-contract/src/goal.rs and crates/jesterky-contract/src/budget.rs both have.
pub mod Merge
use jesterky.Prelude.{
  Bool, true, false, ◌&&◌, Option, none, some, String, Result, ok, err, if◌then◌else◌,
}
use Prim.Native.String.{◌++◌}
use jesterky.Json.{
  Value, Members, null, bool, number, string, array, object, empty, member, is_object,
}
use jesterky.Json.Object.{get, put}

-- `ContractError::InvalidOverlay { target, message }`
pub data OverlayError : Type 0 where
  invalid_overlay : String → String → OverlayError

abbrev pub with_message : {A : Type 0} → String → String → Result String A → Result OverlayError A
with_message target prefix (ok a) = ok a
with_message target prefix (err e) = err (invalid_overlay target (prefix ++ e))

abbrev pub json_type : Value → String
json_type null = "null"
json_type (bool b) = "boolean"
json_type (number n) = "number"
json_type (string s) = "string"
json_type (array vs) = "array"
json_type (object m) = "object"

-- The two arms of the match on `base_map.get_mut(k)`; `merge` is the recursive call on `v`.
abbrev pub merged_member : Option Value → Value → (Value → Value) → Value
merged_member none v merge = v
merged_member (some existing) v merge =
    let inner = merge existing in if is_object existing && is_object v then inner else v

unfoldable mutual
  pub deep_merge_json : Value → Value → Value
  deep_merge_json (object base) (object overlay) = object (merge_members base overlay)
  deep_merge_json base overlay = overlay

  pub merge_members : Members → Members → Members
  merge_members base empty = base
  merge_members base (member k v overlay) =
      merge_members
        (put k (merged_member (get k base) v (λ existing. deep_merge_json existing v)) base) overlay
