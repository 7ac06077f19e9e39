-- ===== src/Ledger/Refs.antt =====
-- How the text of a reference is read: `item.a.b` and `ledger.key.a.b` of
-- crates/jesterky-core/src/ledger.rs.
use Prim.Native.Char.{code}
use Prim.Native.String.{[], ◌∷◌}
use jesterky.Prelude.{
  ℕ, Bool, true, false, not, ◌&&◌, ◌||◌, Option, none, some, List, String, str_eq, leb, ◌==◌,
  if◌then◌else◌, any, Result, ok, err,
}
use jesterky.Prelude.Text.{is_blank, split_dots, strip_prefix}

pub data LedgerError : Type 0 where
  unresolved unknown_source missing_slot type_mismatch : String → LedgerError
  bad_path : String → String → LedgerError
  malformed_literal : String → String → LedgerError

-- A segment list in which no segment is empty.
abbrev pub has_blank : List String → Bool
has_blank path = any is_blank path

abbrev is_alphabetic : ℕ → Bool
is_alphabetic c = (leb b'a' c && leb c b'z') || (leb b'A' c && leb c b'Z')

abbrev is_digit : ℕ → Bool
is_digit c = leb b'0' c && leb c b'9'

all_name_chars : String → Bool
all_name_chars [] = true
all_name_chars (c ∷ s) =
    (code c == b'_' || is_alphabetic (code c) || is_digit (code c)) && all_name_chars s

pub is_ref_source : String → Bool
unfolding all_name_chars
is_ref_source [] = false
is_ref_source (c ∷ s) = (code c == b'_' || is_alphabetic (code c)) && all_name_chars s

-- The two early returns of `item_source_and_path`, on the parts of the split.
item_parts : List String → Option (String × List String)
unfolding is_ref_source
item_parts List.[] = none
item_parts (List.◌∷◌ source path) =
    if is_blank source || str_eq source "ledger" || not (is_ref_source source)
    then none
    else if has_blank path
    then none
    else some (source, path)

unfoldable pub item_source_and_path : String → Option (String × List String)
unfolding item_parts
item_source_and_path raw = item_parts (split_dots raw)

unfoldable pub key_parts : String → List String → Result LedgerError (String × List String)
key_parts raw List.[] = err (bad_path raw "missing ledger key")
key_parts raw (List.◌∷◌ key path) =
    if is_blank key
    then err (bad_path raw "missing ledger key")
    else if has_blank path
    then err (bad_path raw "empty path segment")
    else ok (key, path)

unfoldable pub key_of_rest : String → Option String → Result LedgerError (String × List String)
unfolding key_parts
key_of_rest raw none = err (type_mismatch raw)
key_of_rest raw (some rest) =
    if is_blank rest
    then err (bad_path raw "missing ledger key")
    else key_parts raw (split_dots rest)

unfoldable pub ledger_key_and_path : String → Result LedgerError (String × List String)
unfolding key_of_rest
ledger_key_and_path raw = key_of_rest raw (strip_prefix "ledger." raw)
