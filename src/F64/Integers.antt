-- ===== src/F64/Integers.antt =====
-- `x.ceil() as u64` and `x.floor() as u64`: the conversion saturates, and a NaN gives 0.
use jesterky.Prelude.{ℕ, ◌+◌, ◌-◌, ◌/◌, ◌^◌, ◌≡◌, refl, ◌≤◌, arith, if◌then◌else◌}
use jesterky.F64.{
  F64, f64_arithmetic, f64_of, f64_div, is_nan, is_finite, is_negative, magnitude, scaled,
}
use Prim.Native.Nat.{min}

abbrev pub max_u64 : ℕ
max_u64 = 2 ^ 64 - 1

-- The integer that a rounding of the finite magnitude gives, on the sides of 0 and of infinity.
saturated : F64 → ℕ → ℕ
saturated x n =
    if is_nan x
    then 0
    else if is_negative x
    then 0
    else if is_finite x
    then min n max_u64
    else max_u64

unfoldable pub ceil_u64 : F64 → ℕ
unfolding saturated
ceil_u64 x = saturated x ((scaled (magnitude x) + 2 ^ 1074 - 1) / 2 ^ 1074)

unfoldable pub floor_u64 : F64 → ℕ
unfolding saturated
floor_u64 x = saturated x (scaled (magnitude x) / 2 ^ 1074)

pub ceil_u64-le : (x : F64) → ceil_u64 x ≤ max_u64
unfolding ceil_u64
ceil_u64-le x = ground arith

ceil_runs : ceil_u64 (f64_div (f64_of 7) (f64_of 2)) ≡ 4
unfolding ceil_u64 f64_arithmetic
ceil_runs = refl

floor_runs : floor_u64 (f64_div (f64_of 7) (f64_of 2)) ≡ 3
unfolding floor_u64 f64_arithmetic
floor_runs = refl
