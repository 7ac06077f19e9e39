-- ===== src/Prelude/Text/Split.antt =====
-- What splitting at a separator and stripping a prefix give.
use jesterky.Prelude.Results.{some_inj}
use Prim.Native.Char.{Char, code}
use Prim.Native.String.{String, [], ◌∷◌, ◌++◌}
use text.Mathlib.TextEquality.{Char-path}
use text.Mathlib.TextLemmas.{nil-append, cons-append}
use mathlib.Core.Path.{◌≡◌, refl, sym, ap, ◌∙◌}
use mathlib.Core.Option.{Option, none, some}
use mathlib.Core.Logic.{◌⊎◌, inl, inr}
use native.Mathlib.Omega.{arith}
use jesterky.Prelude.Tests.{◌==◌, ==_iff, Bool-cases, Option-cases}
use jesterky.Prelude.Text.{strip_prefix, split_once, split_here}

pub strip_prefix-append : (p s : String) → strip_prefix p (p ++ s) ≡ some s
unfolding strip_prefix
strip_prefix-append [] s = ap some (nil-append s)
strip_prefix-append (c ∷ p) s =
    rw (cons-append c p s) (ground (arith, ==_iff (code c) (code c), strip_prefix-append p s))

pub append-strip_prefix : (p s rest : String) → strip_prefix p s ≡ some rest → p ++ rest ≡ s
unfolding strip_prefix
append-strip_prefix [] s rest h = nil-append rest ∙ sym (some_inj h)
append-strip_prefix (c ∷ p) [] rest h = cc
append-strip_prefix (c ∷ p) (d ∷ s) rest h = elim (Bool-cases (code c == code d)) [
  | inl same ↦
      let e = Char-path c d ((==_iff (code c) (code d)).0 same) in
      let h' : strip_prefix p s ≡ some rest = rw same at h in
      cons-append c p rest ∙ λ i. e i ∷ append-strip_prefix p s rest h' i
  | inr other ↦ absurd (ground (arith, other))
]

split_here_cases :
    (c : Char) (found : Option String) (later : Option (String × String)) (before after : String)
    → split_here c found later ≡ some (before, after)
    → ((found ≡ some after) × (before ≡ ""))
      ⊎ ((b : String) × (found ≡ none) × (later ≡ some (b, after)) × (before ≡ c ∷ b))
split_here_cases c (some rest) later before after h = inl (cc, cc)
split_here_cases c none none before after h = absurd (cc)
split_here_cases c none (some (b, a)) before after h = inr (b, refl, cc, cc)

-- The parts and the separator between them make up the whole.
pub append-split_once :
    (sep s before after : String)
    → split_once sep s ≡ some (before, after)
    → before ++ (sep ++ after) ≡ s
unfolding split_once
append-split_once sep [] before after h = elim (Option-cases (strip_prefix sep [])) [
  | inl e ↦ absurd (ground (arith, e, h))
  | inr (rest, e) ↦
      let here : (before ≡ "") × (after ≡ rest) = (ground (arith, e, h), ground (arith, e, h)) in
      rw (here.0, here.1) (nil-append (sep ++ rest) ∙ append-strip_prefix sep [] rest e)
]
append-split_once sep (c ∷ s) before after h =
    elim (split_here_cases c (strip_prefix sep (c ∷ s)) (split_once sep s) before after h) [
      | inl (e, at_front) ↦
          rw at_front (nil-append (sep ++ after) ∙ append-strip_prefix sep (c ∷ s) after e)
      | inr (b, e, later, longer) ↦
          rw longer
            (cons-append c b (sep ++ after) ∙ λ i. c ∷ append-split_once sep s b after later i)
    ]
