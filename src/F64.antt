-- ===== src/F64.antt =====
-- `f64`: the 64 bits of an IEEE 754 double, with the comparisons and the arithmetic that the
-- source uses, rounded to nearest, ties to even. Every NaN result is the same quiet NaN.
pub mod Laws
pub mod Integers
use jesterky.Prelude.{
  ℕ, zero, suc, ◌+◌, ◌-◌, ◌*◌, ◌/◌, ◌%◌, ◌^◌, ◌≡◌, refl, Bool, false, not, ◌&&◌, ◌||◌, arith, ltb,
  leb, ◌==◌, if◌then◌else◌,
}

pub record F64 : Type 0 where
  pub bits : ℕ

abbrev pub sign_bit : ℕ
sign_bit = 2 ^ 63

abbrev pub inf_bits : ℕ
inf_bits = 0x7ff0000000000000

abbrev pub nan : F64
nan = record { bits = 0x7ff8000000000000 }

-- `0.0`, `1.0`, `f64::EPSILON`
abbrev pub zero_f64 : F64
zero_f64 = record { bits = 0 }

abbrev pub one_f64 : F64
one_f64 = record { bits = 0x3ff0000000000000 }

abbrev pub epsilon : F64
epsilon = record { bits = 0x3cb0000000000000 }

unfoldable pub is_negative : F64 → Bool
is_negative a = leb sign_bit a.bits

-- The bits without the sign.
unfoldable pub magnitude : F64 → ℕ
magnitude a = a.bits % sign_bit

unfoldable pub is_nan : F64 → Bool
unfolding magnitude
is_nan a = ltb inf_bits (magnitude a)

unfoldable pub is_finite : F64 → Bool
unfolding magnitude
is_finite a = ltb (magnitude a) inf_bits

-- A key that grows with the value; both zeros have the key 2^63.
unfoldable pub order_key : F64 → ℕ
unfolding magnitude is_negative
order_key a = if is_negative a then sign_bit - magnitude a else sign_bit + magnitude a

unfoldable pub ordered : F64 → F64 → Bool
unfolding is_nan
ordered a b = not (is_nan a) && not (is_nan b)

-- `a <= b`, `a < b`, `a == b`: false where one side is NaN.
unfoldable pub f64_le : F64 → F64 → Bool
unfolding ordered order_key
f64_le a b = ordered a b && leb (order_key a) (order_key b)

unfoldable pub f64_lt : F64 → F64 → Bool
unfolding ordered order_key
f64_lt a b = ordered a b && ltb (order_key a) (order_key b)

unfoldable pub f64_eq : F64 → F64 → Bool
unfolding ordered order_key
f64_eq a b = ordered a b && order_key a == order_key b

-- A finite magnitude is `scaled b` times 2^-1074.
pub scaled : ℕ → ℕ
scaled b = if ltb b (2 ^ 52) then b else (2 ^ 52 + b % 2 ^ 52) * 2 ^ (b / 2 ^ 52 - 1)

-- The number of binary digits, from enough fuel.
bit_length : ℕ → ℕ → ℕ
bit_length zero n = 0
bit_length (suc fuel) n = let rest = bit_length fuel (n / 2) in if n == 0 then 0 else suc rest

-- num / den to the nearest integer, ties to even.
nearest : ℕ → ℕ → ℕ
nearest num den =
    let q = num / den in
    let r = 2 * (num % den) in if ltb den r || (r == den && q % 2 == 1) then q + 1 else q

-- The magnitude nearest to (num / den) * 2^-1074. No quotient of the operations below has more
-- than 4300 digits.
uncapped : ℕ → ℕ → ℕ
unfolding bit_length nearest
uncapped num den =
    let k = bit_length 4300 (num / den) - 53 in k * 2 ^ 52 + nearest num (den * 2 ^ k)

rounded : ℕ → ℕ → ℕ
rounded num den = let b = uncapped num den in if leb inf_bits b then inf_bits else b

signed : Bool → ℕ → F64
signed s m = record { bits = if s then sign_bit + m else m }

-- The exact sum of two signed scaled magnitudes.
sum_signed : Bool → ℕ → Bool → ℕ → F64
sum_signed s m t n =
    if (if s then t else not t)
    then signed s (rounded (m + n) 1)
    else if ltb n m
    then signed s (rounded (m - n) 1)
    else if ltb m n
    then signed t (rounded (n - m) 1)
    else signed false 0

pub f64_add : F64 → F64 → F64
f64_add a b =
    if is_nan a || is_nan b
    then nan
    else if is_finite a && is_finite b
    then sum_signed (is_negative a) (scaled (magnitude a)) (is_negative b) (scaled (magnitude b))
    else if is_finite a
    then b
    else if is_finite b
    then a
    else if a.bits == b.bits
    then a
    else nan

-- `-a`
pub f64_neg : F64 → F64
unfolding is_negative magnitude
f64_neg a = record { bits = if is_negative a then magnitude a else sign_bit + magnitude a }

pub f64_sub : F64 → F64 → F64
f64_sub a b = f64_add a (f64_neg b)

signs_differ : F64 → F64 → Bool
unfolding is_negative
signs_differ a b = if is_negative a then not (is_negative b) else is_negative b

pub f64_mul : F64 → F64 → F64
f64_mul a b =
    if is_nan a || is_nan b
    then nan
    else if is_finite a && is_finite b
    then signed (signs_differ a b)
        (rounded (scaled (magnitude a) * scaled (magnitude b)) (2 ^ 1074))
    else if magnitude a == 0 || magnitude b == 0
    then nan
    else signed (signs_differ a b) inf_bits

pub f64_div : F64 → F64 → F64
f64_div a b =
    if is_nan a || is_nan b
    then nan
    else if is_finite b
    then (if magnitude b == 0
        then (if magnitude a == 0 then nan else signed (signs_differ a b) inf_bits)
        else if is_finite a
        then signed (signs_differ a b)
            (rounded (scaled (magnitude a) * 2 ^ 1074) (scaled (magnitude b)))
        else signed (signs_differ a b) inf_bits)
    else if is_finite a
    then signed (signs_differ a b) 0
    else nan

-- `n as f64`
pub f64_of : ℕ → F64
f64_of n = signed false (rounded (n * 2 ^ 1074) 1)

-- Opening this opens the arithmetic down to the bits, for tests.
unfoldable pub f64_arithmetic : F64
unfolding f64_add f64_sub f64_mul f64_div f64_neg f64_of sum_signed signs_differ signed rounded
    uncapped scaled is_nan is_finite is_negative magnitude
f64_arithmetic = zero_f64

-- `f64::max`: the other side, if one is NaN.
unfoldable pub f64_max : F64 → F64 → F64
unfolding is_nan f64_le
f64_max a b = if is_nan a then b else if is_nan b then a else if f64_le b a then a else b

unfoldable pub f64_min : F64 → F64 → F64
unfolding is_nan f64_le
f64_min a b = if is_nan a then b else if is_nan b then a else if f64_le a b then a else b

-- `a.clamp(lo, hi)`; a NaN stays.
unfoldable pub f64_clamp : F64 → F64 → F64 → F64
unfolding f64_lt
f64_clamp a lo hi = if f64_lt a lo then lo else if f64_lt hi a then hi else a

-- Without NaN, `<` is the negation of `>=`.
pub lt-not_le : (a b : F64) → is_nan a ≡ false → is_nan b ≡ false → f64_lt a b ≡ not (f64_le b a)
unfolding f64_lt f64_le ordered
lt-not_le a b p q = ground arith

third : f64_div one_f64 (f64_of 3) ≡ record { bits = 0x3fd5555555555555 }
unfolding f64_arithmetic
third = refl

sum_runs :
    f64_add (f64_div one_f64 (f64_of 10)) (f64_div (f64_of 2) (f64_of 10))
    ≡ record { bits = 0x3fd3333333333334 }
unfolding f64_arithmetic
sum_runs = refl

mul_runs : f64_mul (f64_of 7) (f64_sub (f64_of 2) (f64_of 5)) ≡ f64_neg (f64_of 21)
unfolding f64_arithmetic
mul_runs = refl
