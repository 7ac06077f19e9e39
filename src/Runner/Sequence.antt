-- ===== src/Runner/Sequence.antt =====
-- Laws of the sequencing of steps, and of cutting a list into chunks.
use jesterky.Runner.Fan.{cut, chunks}
use jesterky.Prelude.{
  true, if◌then◌else◌, Bool, ◌-◌, [], false, ◌∷◌, List, ap, zero, suc, refl, err, ℕ, ok, ◌≡◌,
}
use jesterky.Runner.Seam.{out_of_fuel, hangs, returns}
use mathlib.Core.List.{◌++◌ as ◌⧺◌}
use jesterky.Runner.Monad.{give, and_then_run, RunWorld, Exec, Answer}

module _ {S A B : Type 0} where
  -- The same steps after an answer.
  pub same_after :
      (o : Answer S A) (f g : A → Exec S B)
      → ((a : A) (w : RunWorld S) → f a w ≡ g a w)
      → and_then_run o f ≡ and_then_run o g
  same_after (returns (ok a, w)) f g h = h a w
  same_after (returns (err e, w)) f g h = refl
  same_after hangs f g h = refl
  same_after out_of_fuel f g h = refl

module _ {S A B C : Type 0} where
  pub in_turn :
      (o : Answer S A) (f : A → Exec S B) (g : B → Exec S C)
      → and_then_run (and_then_run o f) g ≡ and_then_run o (λ a w. and_then_run (f a w) g)
  in_turn (returns (ok a, w)) f g = refl
  in_turn (returns (err e, w)) f g = refl
  in_turn hangs f g = refl
  in_turn out_of_fuel f g = refl

pub give_back : {S A : Type 0} (o : Answer S A) → o ≡ and_then_run o give
unfolding give
give_back (returns (ok a, w)) = refl
give_back (returns (err e, w)) = refl
give_back hangs = refl
give_back out_of_fuel = refl

pub if_on :
    {S A : Type 0} (b : Bool) (m n : Exec S A) (w : RunWorld S)
    → b ≡ true
    → (if b then m else n) w ≡ m w
if_on true m n w on = refl
if_on false m n w on = cc

pub if_off :
    {S A : Type 0} (b : Bool) (m n : Exec S A) (w : RunWorld S)
    → b ≡ false
    → n w ≡ (if b then m else n) w
if_off true m n w off = cc
if_off false m n w off = refl

unfoldable pub concat : {A : Type 0} → List (List A) → List A
concat [] = []
concat (xs ∷ xss) = xs ⧺ concat xss

-- Cutting a list into chunks and joining them gives it back.
concat-cut :
    {A : Type 0} (width room : ℕ) (xs : List A)
    → (cut width room xs).0 ⧺ concat (cut width room xs).1 ≡ xs
unfolding cut concat
concat-cut width room [] = refl
concat-cut width zero (x ∷ xs) = ap (λ ys. x ∷ ys) (concat-cut width (width - 1) xs)
concat-cut width (suc room) (x ∷ xs) = ap (λ ys. x ∷ ys) (concat-cut width room xs)

pub concat-chunks : {A : Type 0} (width : ℕ) (xs : List A) → concat (chunks width xs) ≡ xs
unfolding chunks cut concat
concat-chunks width [] = refl
concat-chunks width (x ∷ xs) = concat-cut width 0 (x ∷ xs)
