-- ===== src/Overlay/Merge.antt =====
-- What an overlay does to each key of the base.
use jesterky.Prelude.{
  subst, ◌≡◌, refl, ◌&&◌, false, Option, none, some, String, str_eq, eq_iff, arith, inl, inr,
  Bool-cases,
}
use jesterky.Json.{
  is_object, Value, Members, null, bool, number, string, array, object, empty, member,
}
use jesterky.Json.Object.{get, put, has, get-put}
use jesterky.Overlay.{deep_merge_json, merge_members, merged_member}

-- No key of the object stands twice.
abbrev pub AreDistinct : Members → Type 0
AreDistinct empty = Unit
AreDistinct (member k v m) = (has k m ≡ false) × AreDistinct m

-- The member that the merge leaves at a key: the base's own where the overlay has none, and the
-- overlay's otherwise, merged into the base's where both are objects.
abbrev pub overlaid : Option Value → Option Value → Option Value
overlaid base none = base
overlaid none (some v) = some v
overlaid (some existing) (some v) = some (deep_merge_json existing v)

-- Where one side is no object, the overlay replaces the base.
merge_other :
    (existing v : Value)
    → (is_object existing && is_object v) ≡ false
    → deep_merge_json existing v ≡ v
unfolding deep_merge_json
merge_other (object m) (object o) h = cc
merge_other null v h = refl
merge_other (bool b) v h = refl
merge_other (number n) v h = refl
merge_other (string s) v h = refl
merge_other (array vs) v h = refl
merge_other (object m) null h = refl
merge_other (object m) (bool b) h = refl
merge_other (object m) (number n) h = refl
merge_other (object m) (string s) h = refl
merge_other (object m) (array vs) h = refl

abbrev written : Option Value → Value → Value
written old v = merged_member old v (λ existing. deep_merge_json existing v)

written-overlaid : (old : Option Value) (v : Value) → some (written old v) ≡ overlaid old (some v)
written-overlaid none v = refl
written-overlaid (some existing) v = elim (Bool-cases (is_object existing && is_object v)) [
  | inl both ↦ ground (arith, both)
  | inr other ↦ ground (arith, other, merge_other existing v other)
]

merge_members-member :
    (base overlay : Members) (k : String) (v : Value)
    → merge_members base (member k v overlay)
      ≡ merge_members (put k (written (get k base) v) base) overlay
unfolding deep_merge_json
merge_members-member base overlay k v = refl

merge_members-empty : (base : Members) → merge_members base empty ≡ base
unfolding deep_merge_json
merge_members-empty base = refl

absent : (m : Members) (k : String) → has k m ≡ false → get k m ≡ none
absent m k h = ground arith

get-merge_members :
    (overlay base : Members) (k : String)
    → AreDistinct overlay
    → get k (merge_members base overlay) ≡ overlaid (get k base) (get k overlay)
get-merge_members empty base k d = rw (merge_members-empty base)
get-merge_members (member j v overlay) base k d =
    let new = written (get j base) v in
    let rest = get-merge_members overlay (put j new base) k d.1 in
    rw (merge_members-member base overlay j v, rest, get-put j k new base)
      (elim (Bool-cases (str_eq j k)) [
        | inl same ↦ rw same (
            subst (λ n. overlaid (some new) (get n overlay) ≡ overlaid (get n base) (some v))
              ((eq_iff j k).0 same) (rw (absent overlay j d.0) (written-overlaid (get j base) v)))
        | inr other ↦ rw other
      ])

-- Merging two objects gives an object that has, at every key, the merge of the members there.
pub get-deep_merge :
    (base overlay : Members) (k : String)
    → AreDistinct overlay
    → (m : Members) × (deep_merge_json (object base) (object overlay) ≡ object m)
      × (get k m ≡ overlaid (get k base) (get k overlay))
unfolding deep_merge_json
get-deep_merge base overlay k d =
    (merge_members base overlay, refl, get-merge_members overlay base k d)
