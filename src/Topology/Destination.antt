-- ===== src/Topology/Destination.antt =====
-- What validation accepts as a destination, the ledger can write to.

use Prim.Native.Char.{code}
use Prim.Native.String.{[], ◌∷◌}
use jesterky.Ledger.{key_parts, key_of_rest, Ref, ledger_key_and_path}
use jesterky.Prelude.{
  ok, err, if◌then◌else◌, ◌>>=◌, Result, List-cases, is_empty, inr, ◌&&◌, inl, not, Option-cases,
  ◌==◌, arith, List, true, is_ok, false, ◌∷◌, Bool, some, ◌≡◌, String,
}
use jesterky.Topology.Validate.{syntax_of_parts, validate_syntax, validate_output_destination}
use jesterky.Prelude.Text.{is_blank, has_prefix, trim, strip_prefix, split_dots}

-- A text that has one dot, at its end.
abbrev ends_at_dot : String → Bool
ends_at_dot [] = false
ends_at_dot (c ∷ []) = code c == b'.'
ends_at_dot (c ∷ d ∷ p) = not (code c == b'.') && ends_at_dot (d ∷ p)

-- A prefix that ends at the first dot is the first part of the split.
split-strip_prefix :
    (p s rest : String)
    → ends_at_dot p ≡ true
    → strip_prefix p s ≡ some rest
    → (source : String) × (split_dots s ≡ List.◌∷◌ source (split_dots rest))
unfolding split_dots strip_prefix
split-strip_prefix [] s rest dot h = cc
split-strip_prefix (c ∷ p) [] rest dot h = cc
split-strip_prefix (c ∷ []) (d ∷ s) rest dot h = ([], ground (arith, dot, h))
split-strip_prefix (c ∷ b ∷ p) (d ∷ s) rest dot h =
    let (source, e) = split-strip_prefix (b ∷ p) s rest (ground (arith, dot)) (ground (arith, h)) in
    (d ∷ source, ground (arith, dot, h, e))

split_dots_some : (s : String) → is_empty (split_dots s) ≡ false
unfolding split_dots
split_dots_some [] = λ i. false
split_dots_some (c ∷ s) = elim (List-cases (split_dots s)) [
  | inl none_ ↦ rw none_ (ground arith)
  | inr (part, parts, e) ↦ rw e (ground arith)
]

parts_lem :
    (raw source : String) (parts : List String)
    → is_empty parts ≡ false
    → is_ok (syntax_of_parts raw (List.◌∷◌ source parts)) ≡ true
    → is_ok (key_parts raw parts) ≡ true
unfolding syntax_of_parts key_parts
parts_lem raw source List.[] some_ h = cc
parts_lem raw source (List.◌∷◌ key path) some_ h = ground (arith, h)

syntax_lem :
    (raw source rest : String)
    → is_ok (syntax_of_parts raw (List.◌∷◌ source (split_dots rest))) ≡ true
    → is_ok (key_of_rest raw (some rest)) ≡ true
unfolding syntax_of_parts key_of_rest key_parts split_dots
syntax_lem raw source [] h = ground (arith, h)
syntax_lem raw source (c ∷ rest) h =
    parts_lem raw source (split_dots (c ∷ rest)) (split_dots_some (c ∷ rest)) h

then_lem :
    (r : Result String Unit) (b : Bool) (message : String)
    → is_ok (r >>= λ u. if b then ok tt else err message) ≡ true
    → (is_ok r ≡ true) × (b ≡ true)
then_lem (ok u) b message h = ground (arith, h)
then_lem (err e) b message h = cc

guarded_lem :
    (blank parses : Bool) (message : String) (r : Result String Unit)
    → parses ≡ false
    → is_ok (if blank then err message else if parses then ok tt else r) ≡ true
    → is_ok r ≡ true
guarded_lem blank parses message r no_json h = ground (arith, no_json, h)

-- If serde_json reads no document from a text that starts with `ledger.`, then a destination that
-- `validate_output_destination` accepts has a ledger key and a path without an empty segment.
pub validate_output_destination_lem :
    (is_json : String → Bool) (reference : Ref)
    → ((raw : String) → has_prefix "ledger." raw ≡ true → is_json raw ≡ false)
    → is_ok (validate_output_destination is_json reference) ≡ true
    → is_ok (ledger_key_and_path (trim reference)) ≡ true
unfolding validate_output_destination validate_syntax ledger_key_and_path has_prefix
validate_output_destination_lem is_json reference json h =
    let raw = trim reference in
    let (syntax_ok, prefixed) = then_lem (validate_syntax is_json reference) _ _ h in
    let parts_ok = guarded_lem (is_blank raw) (is_json raw) _ _ (json raw prefixed) syntax_ok in
    elim (Option-cases (strip_prefix "ledger." raw)) [
      | inl other ↦ cc
      | inr (rest, e) ↦
          let (source, split) = split-strip_prefix "ledger." raw rest (λ i. true) e in
          rw e (syntax_lem raw source rest (rw split at parts_ok))
    ]
