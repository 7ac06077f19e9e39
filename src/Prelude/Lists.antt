-- ===== src/Prelude/Lists.antt =====
-- Lists measured and indexed by native numbers, under the library's names; tests over lists.
use Prim.Native.Nat.{ℕ, zero, suc, ◌+◌, ◌≤◌}
use mathlib.Core.Path.{◌≡◌, refl, ap}
use mathlib.Core.Logic.{◌↔◌, ◌⊎◌, inl, inr}
use mathlib.Core.Bool.{Bool, true, false, not, ◌&&◌, ◌||◌}
use mathlib.Core.List.{List, [], ◌∷◌, ◌++◌, map}
use mathlib.Core.Option.{Option, none, some}
use native.Mathlib.Omega.{arith}
use jesterky.Prelude.Tests.{if◌then◌else◌, Bool-cases}

module _ {ℓ} {A : Type ℓ} where
  abbrev pub length : List A → ℕ
  length [] = 0
  length (x ∷ xs) = suc (length xs)

  abbrev pub get_elem? : List A → ℕ → Option A
  get_elem? [] i = none
  get_elem? (x ∷ xs) zero = some x
  get_elem? (x ∷ xs) (suc i) = get_elem? xs i

  abbrev pub is_empty : List A → Bool
  is_empty [] = true
  is_empty (x ∷ xs) = false

  -- `iter().any`, `iter().all`
  abbrev pub any : (A → Bool) → List A → Bool
  any p [] = false
  any p (x ∷ xs) = p x || any p xs

  abbrev pub all : (A → Bool) → List A → Bool
  all p [] = true
  all p (x ∷ xs) = p x && all p xs

  -- `iter().filter`
  abbrev pub keep : (A → Bool) → List A → List A
  keep p [] = []
  keep p (x ∷ xs) = if p x then x ∷ keep p xs else keep p xs

  -- A predicate at every element.
  abbrev pub All {κ} : (A → Type κ) → List A → Type κ
  All P [] = Unit
  All P (x ∷ xs) = P x × All P xs

module _ {ℓ} {A : Type ℓ} where
  pub List-cases : (xs : List A) → (xs ≡ []) ⊎ ((x : A) × (rest : List A) × (xs ≡ x ∷ rest))
  List-cases [] = inl refl
  List-cases (x ∷ xs) = inr (x, xs, refl)

  pub length-append : (xs ys : List A) → length (xs ++ ys) ≡ length xs + length ys
  length-append [] ys = omega arith
  length-append (x ∷ xs) ys = omega (arith, length-append xs ys)

  pub length-map {κ} : {B : Type κ} (f : A → B) (xs : List A) → length (map f xs) ≡ length xs
  length-map f [] = refl
  length-map f (x ∷ xs) = ap suc (length-map f xs)

  pub length-keep-le : (p : A → Bool) (xs : List A) → length (keep p xs) ≤ length xs
  length-keep-le p [] = omega arith
  length-keep-le p (x ∷ xs) = ground (arith, length-keep-le p xs)

  pub all-append : (p : A → Bool) (xs ys : List A) → all p (xs ++ ys) ≡ (all p xs && all p ys)
  all-append p [] ys = refl
  all-append p (x ∷ xs) ys = ground (arith, all-append p xs ys)

  pub any-append : (p : A → Bool) (xs ys : List A) → any p (xs ++ ys) ≡ (any p xs || any p ys)
  any-append p [] ys = refl
  any-append p (x ∷ xs) ys = ground (arith, any-append p xs ys)

  pub All-map {κ κ'} :
      (P : A → Type κ) (Q : A → Type κ') (xs : List A) → ((x : A) → P x → Q x) → All P xs → All Q xs
  All-map P Q [] f h = tt
  All-map P Q (x ∷ xs) f h = (f x h.0, All-map P Q xs f h.1)

  -- What holds of the elements that a filter keeps.
  pub All-keep {κ κ'} :
      (P : A → Type κ) (Q : A → Type κ') (q : A → Bool) (xs : List A)
      → ((x : A) → P x → q x ≡ true → Q x)
      → All P xs
      → All Q (keep q xs)
  All-keep P Q q [] f h = tt
  All-keep P Q q (x ∷ xs) f h = elim (Bool-cases (q x)) [
    | inl kept ↦ rw kept (f x h.0 kept, All-keep P Q q xs f h.1)
    | inr dropped ↦ rw dropped (All-keep P Q q xs f h.1)
  ]

  -- How many a filter keeps, against `any` and `all`.
  pub count_all :
      (p : A → Bool) (xs : List A) → (length (keep p xs) ≡ length xs) ↔ (all p xs ≡ true)
  count_all p [] = (λ e. refl, λ e. refl)
  count_all p (x ∷ xs) = ground (arith, count_all p xs, length-keep-le p xs)

  pub count_any : (p : A → Bool) (xs : List A) → (length (keep p xs) ≡ 0) ↔ (any p xs ≡ false)
  count_any p [] = (λ e. refl, λ e. refl)
  count_any p (x ∷ xs) = ground (arith, count_any p xs)

module _ {ℓ κ} {A : Type ℓ} {B : Type κ} where
  -- A test of the images of what a filter keeps.
  pub any-map-keep :
      (f : A → B) (p : B → Bool) (q v : A → Bool) (xs : List A)
      → ((x : A) → p (f x) ≡ q x)
      → any p (map f (keep v xs)) ≡ any (λ (x : A). v x && q x) xs
  any-map-keep f p q v [] h = refl
  any-map-keep f p q v (x ∷ xs) h = ground (arith, h x, any-map-keep f p q v xs h)

  pub is_empty-map-keep :
      (f : A → B) (v : A → Bool) (xs : List A) → is_empty (map f (keep v xs)) ≡ not (any v xs)
  is_empty-map-keep f v [] = refl
  is_empty-map-keep f v (x ∷ xs) = ground (arith, is_empty-map-keep f v xs)
