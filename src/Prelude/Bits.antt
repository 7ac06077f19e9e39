-- ===== src/Prelude/Bits.antt =====
-- When the bits of an exclusive or, or of an or, are all zero. The native operations mean a
-- recursion on binary digits.
use Prim.Native.Nat.{
  ℕ, zero, suc, ◌/◌, ◌%◌, ◌≤◌, max, bit_or, bit_xor, digits, differ, bit_or-bitwise,
  bit_xor-bitwise,
}
use mathlib.Core.Path.{◌≡◌, refl, sym, ◌∙◌}
use mathlib.Core.Logic.{◌↔◌}
use native.Mathlib.Omega.{arith}

abbrev or_digits : ℕ → ℕ → ℕ → ℕ
or_digits n a b = digits (λ b. b) max n a b

abbrev xor_digits : ℕ → ℕ → ℕ → ℕ
xor_digits n a b = digits (λ b. b) differ n a b

or_digits-zero : (n a b : ℕ) → a ≤ n → or_digits n a b ≡ 0 → (a ≡ 0) × (b ≡ 0)
or_digits-zero zero a b h e = (omega arith, e)
or_digits-zero (suc n) zero b h e = (refl, e)
or_digits-zero (suc n) (suc a) b h e =
    let rest : or_digits n (suc a / 2) (b / 2) ≡ 0 = omega (arith, e) in
    let (p, q) = or_digits-zero n (suc a / 2) (b / 2) (omega arith) rest in
    absurd (omega (arith, e, p))

pub bit_or-zero : (a b : ℕ) → (bit_or a b ≡ 0) ↔ ((a ≡ 0) × (b ≡ 0))
bit_or-zero a b = (
  λ e. or_digits-zero a a b (omega arith) (sym (bit_or-bitwise a b) ∙ e),
  λ h. rw (h.0, h.1) refl,
)

differ-zero : (a b : ℕ) → (differ a b ≡ 0) ↔ (a ≡ b)
differ-zero zero b = (λ e. sym e, λ e. sym e)
differ-zero (suc a) zero = (λ e. e, λ e. e)
differ-zero (suc a) (suc b) =
    (λ e. omega (arith, (differ-zero a b).0 e), λ e. (differ-zero a b).1 (omega arith))

xor_digits-zero : (n a b : ℕ) → a ≤ n → xor_digits n a b ≡ 0 → a ≡ b
xor_digits-zero zero a b h e = omega (arith, e)
xor_digits-zero (suc n) zero b h e = sym e
xor_digits-zero (suc n) (suc a) b h e =
    let rest : xor_digits n (suc a / 2) (b / 2) ≡ 0 = omega (arith, e) in
    let low : differ (suc a % 2) (b % 2) ≡ 0 = omega (arith, e) in
    let half = xor_digits-zero n (suc a / 2) (b / 2) (omega arith) rest in
    let last = (differ-zero (suc a % 2) (b % 2)).0 low in omega (arith, half, last)

xor_digits_same : (n a : ℕ) → a ≤ n → xor_digits n a a ≡ 0
xor_digits_same zero a h = omega arith
xor_digits_same (suc n) zero h = refl
xor_digits_same (suc n) (suc a) h = omega (
  arith,
  xor_digits_same n (suc a / 2) (omega arith),
  (differ-zero (suc a % 2) (suc a % 2)).1 refl,
)

pub bit_xor-zero : (a b : ℕ) → (bit_xor a b ≡ 0) ↔ (a ≡ b)
bit_xor-zero a b = (
  λ e. xor_digits-zero a a b (omega arith) (sym (bit_xor-bitwise a b) ∙ e),
  λ e. rw (← e) (bit_xor-bitwise a a ∙ xor_digits_same a a (omega arith)),
)
