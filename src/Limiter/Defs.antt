-- ===== src/Limiter/Defs.antt =====
-- The state behind the mutex of `AdaptiveLimiter`, and what each method does under the lock. A
-- `usize` has 64 bits. A method that calls `notify_waiters` says so by its Boolean.
use Prim.Native.Nat.{max}
use jesterky.Prelude.{ℕ, ◌+◌, ◌-◌, ◌/◌, ◌%◌, ◌^◌, Bool, true, false, ◌&&◌, ltb, leb, if◌then◌else◌}

pub record Inner : Type 0 where
  pub limit : ℕ
  pub in_flight : ℕ
  pub successes : ℕ

pub record AdaptiveLimiter : Type 0 where
  pub inner : Inner
  pub lowest : ℕ
  pub highest : ℕ

-- `start.clamp(min, max)`, where `min <= max`.
abbrev pub clamp : ℕ → ℕ → ℕ → ℕ
clamp n lo hi = if ltb n lo then lo else if ltb hi n then hi else n

unfoldable pub new : ℕ → ℕ → ℕ → AdaptiveLimiter
new start lo hi =
    let lowest = max lo 1 in
    let highest = max hi lowest in
    record {
      inner = record { limit = clamp start lowest highest; in_flight = 0; successes = 0 };
      lowest = lowest;
      highest = highest;
    }

-- The block of `acquire` under the lock: whether a permit is taken.
unfoldable pub try_take : AdaptiveLimiter → Bool × AdaptiveLimiter
try_take l =
    if ltb l.inner.in_flight l.inner.limit
    then (
      true,
      record l { inner = record l.inner { in_flight = (l.inner.in_flight + 1) % 2 ^ 64 } },
    )
    else (false, l)

unfoldable pub on_success : AdaptiveLimiter → Bool × AdaptiveLimiter
on_success l =
    let successes = (l.inner.successes + 1) % 2 ^ 64 in
    if leb l.inner.limit successes && ltb l.inner.limit l.highest
    then (
      true,
      record l { inner = record l.inner { limit = (l.inner.limit + 1) % 2 ^ 64; successes = 0 } },
    )
    else (false, record l { inner = record l.inner { successes = successes } })

unfoldable pub on_rate_limited : AdaptiveLimiter → AdaptiveLimiter
on_rate_limited l = record l {
  inner = record l.inner { limit = max (l.inner.limit / 2) l.lowest; successes = 0 };
}

-- `saturating_sub` is the subtraction of ℕ. Dropping a `Permit` calls it; the waiters are woken.
unfoldable pub release : AdaptiveLimiter → AdaptiveLimiter
release l = record l { inner = record l.inner { in_flight = l.inner.in_flight - 1 } }
