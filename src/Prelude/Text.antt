-- ===== src/Prelude/Text.antt =====
-- Text as the source handles it: trimming, splitting at dots, decimal indices.
pub mod Split
use Prim.Native.Nat.{ℕ, zero, suc, ◌+◌, ◌*◌, ◌-◌, ◌^◌, ◌/◌, ◌%◌}
use Prim.Native.Char.{Char, code}
use Prim.Native.String.{String, [], ◌∷◌, ◌++◌, char_at}
use mathlib.Core.Bool.{Bool, true, false, ◌&&◌, ◌||◌}
use mathlib.Core.List.{List}
use mathlib.Core.Option.{Option, none, some}
use mathlib.Core.Path.{◌≡◌, refl}
use text.Mathlib.Text.{◌==◌ as str_eq}
use jesterky.Prelude.Tests.{ltb, leb, ◌==◌, if◌then◌else◌, is_some, unwrap_or}
use jesterky.Prelude.Lists.{get_elem?}

-- `char::is_whitespace`: the Unicode property White_Space.
abbrev pub is_whitespace : ℕ → Bool
is_whitespace c =
    (leb 9 c && leb c 13)
    || c == 32
    || c == 0x85
    || c == 0xa0
    || c == 0x1680
    || (leb 0x2000 c && leb c 0x200a)
    || c == 0x2028
    || c == 0x2029
    || c == 0x202f
    || c == 0x205f
    || c == 0x3000

pub trim_start : String → String
trim_start [] = []
trim_start (c ∷ s) = if is_whitespace (code c) then trim_start s else c ∷ s

-- A suffix of white space is dropped from the inside out.
trim_cons : Char → String → String
trim_cons c [] = if is_whitespace (code c) then [] else c ∷ []
trim_cons c (d ∷ s) = c ∷ d ∷ s

pub trim_end : String → String
unfolding trim_cons
trim_end [] = []
trim_end (c ∷ s) = trim_cons c (trim_end s)

-- `str::trim`
unfoldable pub trim : String → String
unfolding trim_start trim_end
trim s = trim_end (trim_start s)

abbrev push_front : Char → List String → List String
push_front c List.[] = List.◌∷◌ (c ∷ []) List.[]
push_front c (List.◌∷◌ part parts) = List.◌∷◌ (c ∷ part) parts

-- `s.split('.')`: never empty, `""` gives one empty part.
unfoldable pub split_dots : String → List String
split_dots [] = List.◌∷◌ [] List.[]
split_dots (c ∷ s) =
    if code c == b'.' then List.◌∷◌ [] (split_dots s) else push_front c (split_dots s)

-- `parts.join(".")`
unfoldable pub join_dots : List String → String
join_dots List.[] = ""
join_dots (List.◌∷◌ p List.[]) = p
join_dots (List.◌∷◌ p (List.◌∷◌ q r)) = p ++ ("." ++ join_dots (List.◌∷◌ q r))

-- `s.is_empty()`
abbrev pub is_blank : String → Bool
is_blank [] = true
is_blank (c ∷ s) = false

digits_from : ℕ → String → Option ℕ
digits_from n [] = some n
digits_from n (c ∷ s) =
    if leb b'0' (code c) && leb (code c) b'9'
    then digits_from (n * 10 + (code c - b'0')) s
    else none

abbrev at_most_usize : Option ℕ → Option ℕ
at_most_usize none = none
at_most_usize (some n) = if ltb n (2 ^ 64) then some n else none

some_digits : String → Option ℕ
unfolding digits_from
some_digits [] = none
some_digits (c ∷ s) = at_most_usize (digits_from 0 (c ∷ s))

-- `s.parse::<usize>()` on a 64-bit target: an optional `+`, then digits, below 2^64.
unfoldable pub parse_usize : String → Option ℕ
unfolding some_digits
parse_usize [] = none
parse_usize (c ∷ s) = if code c == b'+' then some_digits s else some_digits (c ∷ s)

-- `s.strip_prefix(p)`, `s.starts_with(p)`
unfoldable pub strip_prefix : String → String → Option String
strip_prefix [] s = some s
strip_prefix (c ∷ p) [] = none
strip_prefix (c ∷ p) (d ∷ s) = if code c == code d then strip_prefix p s else none

unfoldable pub has_prefix : String → String → Bool
unfolding strip_prefix
has_prefix p s = is_some (strip_prefix p s)

-- `s.split_once(sep)`: what stands before and after the first occurrence.
abbrev split_here : Char → Option String → Option (String × String) → Option (String × String)
split_here c (some rest) later = some ("", rest)
split_here c none none = none
split_here c none (some (before, after)) = some (c ∷ before, after)

abbrev split_end : Option String → Option (String × String)
split_end none = none
split_end (some rest) = some ("", rest)

unfoldable pub split_once : String → String → Option (String × String)
unfolding strip_prefix
split_once sep [] = split_end (strip_prefix sep [])
split_once sep (c ∷ s) = split_here c (strip_prefix sep (c ∷ s)) (split_once sep s)

-- `s.chars().all(p)` on code points.
abbrev pub all_chars : (ℕ → Bool) → String → Bool
all_chars p [] = true
all_chars p (c ∷ s) = p (code c) && all_chars p s

abbrev pub is_ascii_uppercase : ℕ → Bool
is_ascii_uppercase c = leb b'A' c && leb c b'Z'

abbrev pub is_ascii_digit : ℕ → Bool
is_ascii_digit c = leb b'0' c && leb c b'9'

abbrev pub is_ascii_alphanumeric : ℕ → Bool
is_ascii_alphanumeric c = is_ascii_digit c || is_ascii_uppercase c || (leb b'a' c && leb c b'z')

-- `s.to_ascii_lowercase()`: the letter of the alphabet at the same place.
lower_char : Char → Char
lower_char c =
    if is_ascii_uppercase (code c) then char_at "abcdefghijklmnopqrstuvwxyz" (code c - b'A') else c

unfoldable pub to_ascii_lowercase : String → String
unfolding lower_char
to_ascii_lowercase [] = []
to_ascii_lowercase (c ∷ s) = lower_char c ∷ to_ascii_lowercase s

lowercase_runs : to_ascii_lowercase "TruE_Z" ≡ "true_z"
unfolding to_ascii_lowercase
lowercase_runs = refl

split_once_runs : split_once "__" "a_b__c__d" ≡ some ("a_b", "c__d")
unfolding split_once
split_once_runs = refl

-- `s.trim_end_matches('/')`: a suffix of slashes is dropped from the inside out.
slash_cons : Char → String → String
slash_cons c [] = if code c == b'/' then [] else c ∷ []
slash_cons c (d ∷ s) = c ∷ d ∷ s

unfoldable pub trim_slashes : String → String
unfolding slash_cons
trim_slashes [] = []
trim_slashes (c ∷ s) = slash_cons c (trim_slashes s)

-- `s.ends_with(p)`
unfoldable pub has_suffix : String → String → Bool
has_suffix p [] = str_eq p []
has_suffix p (c ∷ s) = str_eq p (c ∷ s) || has_suffix p s

-- `s.chars().take(n).collect()`
unfoldable pub take_chars : ℕ → String → String
take_chars zero s = []
take_chars (suc n) [] = []
take_chars (suc n) (c ∷ s) = c ∷ take_chars n s

digit_text : ℕ → String
digit_text d =
    unwrap_or
      (get_elem?
        (List.◌∷◌ "0" (
          List.◌∷◌ "1" (
            List.◌∷◌ "2" (
              List.◌∷◌ "3" (
                List.◌∷◌ "4" (
                  List.◌∷◌ "5"
                    (List.◌∷◌ "6" (List.◌∷◌ "7" (List.◌∷◌ "8" (List.◌∷◌ "9" List.[]))))))))))
        d)
      ""

decimal_from : ℕ → ℕ → String
unfolding digit_text
decimal_from zero n = ""
decimal_from (suc fuel) n =
    let rest = decimal_from fuel (n / 10) ++ digit_text (n % 10) in
    if ltb n 10 then digit_text n else rest

-- `format!("{n}")`, for a number of at most 100 digits.
unfoldable pub decimal : ℕ → String
unfolding decimal_from
decimal n = decimal_from 100 n

decimal_runs : decimal 4096 ≡ "4096"
unfolding decimal
decimal_runs = refl

parse_usize_runs : parse_usize "0012" ≡ some 12
unfolding parse_usize
parse_usize_runs = refl

split_dots_runs : split_dots "a..b" ≡ List.◌∷◌ "a" (List.◌∷◌ "" (List.◌∷◌ "b" List.[]))
unfolding split_dots
split_dots_runs = refl

trim_runs : trim "  x y " ≡ "x y"
unfolding trim
trim_runs = refl
