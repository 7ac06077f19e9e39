-- ===== src/Event/Compare.antt =====
-- Total orders as comparison functions, and their lexicographic combinations.
use Prim.Native.Nat.{compare, Ordering}
use Prim.Native.Char.{Char, code}
use Prim.Native.String.compare as compare_text_law
use Prim.Native.String.{compare as compare_text, then as then_text, [], ◌∷◌}
use text.Mathlib.TextEquality.{path_by_compare}
use text.Mathlib.TextPositions.{compare_refl}
use jesterky.Prelude.{ℕ, ◌≡◌, refl, ◌∙◌, String, arith}
use jesterky.Event.Defs.{◌then_by◌}

abbrev pub flip : Ordering → Ordering
flip Ordering.lt = Ordering.gt
flip Ordering.eq = Ordering.eq
flip Ordering.gt = Ordering.lt

-- The library's lexicographic `then` is that of the addresses.
same_then : (o p : Ordering) → then_text o p ≡ (o then_by p)
same_then Ordering.lt p = refl
same_then Ordering.eq p = refl
same_then Ordering.gt p = refl

-- What a comparison function owes: it answers `eq` exactly at equal values, its answers turn with
-- its arguments, and `lt` is transitive.
pub record IsOrder {ℓ} {A : Type ℓ} (cmp : A → A → Ordering) : Type ℓ where
  pub self : (a : A) → cmp a a ≡ Ordering.eq
  pub equal : (a b : A) → cmp a b ≡ Ordering.eq → a ≡ b
  pub turned : (a b : A) → cmp b a ≡ flip (cmp a b)
  pub trans : (a b c : A) → cmp a b ≡ Ordering.lt → cmp b c ≡ Ordering.lt → cmp a c ≡ Ordering.lt

nat_self : (a : ℕ) → compare a a ≡ Ordering.eq
nat_self a = ground arith

nat_equal : (a b : ℕ) → compare a b ≡ Ordering.eq → a ≡ b
nat_equal a b h = ground arith

nat_turned : (a b : ℕ) → compare b a ≡ flip (compare a b)
nat_turned a b = ground arith

nat_trans :
    (a b c : ℕ) → compare a b ≡ Ordering.lt → compare b c ≡ Ordering.lt → compare a c ≡ Ordering.lt
nat_trans a b c h k = ground arith

pub nat-IsOrder : IsOrder compare
nat-IsOrder = record { self = nat_self; equal = nat_equal; turned = nat_turned; trans = nat_trans }

-- The native comparison, clause by clause.
nil-cons : (d : Char) (t : String) → compare_text [] (d ∷ t) ≡ Ordering.lt
nil-cons d t = λ i. compare_text_law.nil-cons d t i

cons-nil : (c : Char) (s : String) → compare_text (c ∷ s) [] ≡ Ordering.gt
cons-nil c s = λ i. compare_text_law.cons-nil c s i

cons-cons :
    (c d : Char) (s t : String)
    → compare_text (c ∷ s) (d ∷ t) ≡ (compare (code c) (code d) then_by compare_text s t)
cons-cons c d s t =
    (λ i. compare_text_law.cons-cons c d s t i)
    ∙ same_then (compare (code c) (code d)) (compare_text s t)

text_turned : (s t : String) → compare_text t s ≡ flip (compare_text s t)
text_turned [] [] = refl
text_turned [] (d ∷ t) = rw (nil-cons d t, cons-nil d t)
text_turned (c ∷ s) [] = rw (nil-cons c s, cons-nil c s)
text_turned (c ∷ s) (d ∷ t) =
    rw (cons-cons c d s t, cons-cons d c t s) (ground (arith, text_turned s t))

text_trans :
    (s t u : String)
    → compare_text s t ≡ Ordering.lt
    → compare_text t u ≡ Ordering.lt
    → compare_text s u ≡ Ordering.lt
text_trans s [] [] h k = cc
text_trans [] [] u h k = cc
text_trans (c ∷ s) [] u h k = absurd (ground (arith, cons-nil c s))
text_trans [] (d ∷ t) [] h k = absurd (ground (arith, cons-nil d t))
text_trans (c ∷ s) (d ∷ t) [] h k = absurd (ground (arith, cons-nil d t))
text_trans [] (d ∷ t) (e ∷ u) h k = nil-cons e u
text_trans (c ∷ s) (d ∷ t) (e ∷ u) h k =
    ground (arith, cons-cons c d s t, cons-cons d e t u, cons-cons c e s u, text_trans s t u)

pub text-IsOrder : IsOrder compare_text
text-IsOrder = record {
  self = compare_refl;
  equal = path_by_compare;
  turned = text_turned;
  trans = text_trans;
}
