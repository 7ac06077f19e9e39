-- ===== src/F64/Laws.antt =====
-- Facts about doubles that the development needs: NaN does not arise from finite values, and the
-- comparisons order the values between which a number is clamped.
use jesterky.Prelude.{◌-◌, ◌+◌, ◌==◌, ◌*◌, ◌^◌, ℕ, ◌≤◌, ◌≡◌, refl, Bool, true, false, arith}
use jesterky.F64.{
  is_negative, f64_add, sum_signed, F64, inf_bits, zero_f64, one_f64, is_nan, is_finite, f64_le,
  f64_lt, f64_div, f64_clamp, rounded, signed, signs_differ, scaled, magnitude,
}

rounded-le : (n d : ℕ) → rounded n d ≤ inf_bits
unfolding rounded
rounded-le n d = ground arith

signed-not_nan : (s : Bool) (m : ℕ) → m ≤ inf_bits → is_nan (signed s m) ≡ false
unfolding signed is_nan
signed-not_nan true m h = ground arith
signed-not_nan false m h = ground arith

pub finite-not_nan : (a : F64) → is_finite a ≡ true → is_nan a ≡ false
unfolding is_finite is_nan
finite-not_nan a h = ground arith

positive-magnitude : (b : F64) → f64_lt zero_f64 b ≡ true → (magnitude b == 0) ≡ false
unfolding f64_lt magnitude
positive-magnitude b h = ground arith

-- A finite number divided by a positive one is a number.
pub div-not_nan :
    (a b : F64)
    → is_finite a ≡ true
    → is_finite b ≡ true
    → f64_lt zero_f64 b ≡ true
    → is_nan (f64_div a b) ≡ false
unfolding f64_div
div-not_nan a b fa fb pos = ground (
  arith,
  finite-not_nan a fa,
  finite-not_nan b fb,
  positive-magnitude b pos,
  signed-not_nan (signs_differ a b)
      (rounded (scaled (magnitude a) * 2 ^ 1074) (scaled (magnitude b)))
      (rounded-le (scaled (magnitude a) * 2 ^ 1074) (scaled (magnitude b))),
)

-- A number between 0 and 1.
abbrev pub IsUnit : F64 → Type 0
IsUnit x = (f64_le zero_f64 x ≡ true) × (f64_le x one_f64 ≡ true)

pub clamp-IsUnit : (x : F64) → is_nan x ≡ false → IsUnit (f64_clamp x zero_f64 one_f64)
unfolding f64_clamp f64_le f64_lt
clamp-IsUnit x h = ground arith

pub zero-IsUnit : IsUnit zero_f64
unfolding f64_le
zero-IsUnit = (refl, refl)

pub one-IsUnit : IsUnit one_f64
unfolding f64_le
one-IsUnit = (refl, refl)

sum_signed-not_nan : (s t : Bool) (m n : ℕ) → is_nan (sum_signed s m t n) ≡ false
unfolding sum_signed
sum_signed-not_nan s t m n = ground (
  arith,
  signed-not_nan s (rounded (m + n) 1) (rounded-le (m + n) 1),
  signed-not_nan s (rounded (m - n) 1) (rounded-le (m - n) 1),
  signed-not_nan t (rounded (n - m) 1) (rounded-le (n - m) 1),
  signed-not_nan false 0 (omega arith),
)

-- A number and a finite one add up to a number.
pub add-not_nan : (a b : F64) → is_nan a ≡ false → is_finite b ≡ true → is_nan (f64_add a b) ≡ false
unfolding f64_add
add-not_nan a b na fb = ground (
  arith,
  na,
  fb,
  finite-not_nan b fb,
  sum_signed-not_nan (is_negative a) (is_negative b) (scaled (magnitude a)) (scaled (magnitude b)),
)
