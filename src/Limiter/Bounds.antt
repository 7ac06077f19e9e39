-- ===== src/Limiter/Bounds.antt =====
-- Each method of the limiter keeps its ceiling between the bounds.
use Prim.Native.Nat.{max}
use jesterky.Prelude.{ℕ, ◌+◌, ◌-◌, ◌^◌, ◌<◌, ◌≤◌, ◌≡◌, true, false, arith}
use jesterky.Limiter.Defs.{AdaptiveLimiter, new, try_take, on_success, on_rate_limited, release}

-- The ceiling lies between its bounds, the lower of which is at least 1; the count is that of the
-- live permits and within the upper bound.
pub record IsBounded (lowest highest : ℕ) (l : AdaptiveLimiter) (live : ℕ) : Type 0 where
  pub low : l.lowest ≡ lowest
  pub high : l.highest ≡ highest
  pub above : lowest ≤ l.inner.limit
  pub below : l.inner.limit ≤ highest
  pub counted : l.inner.in_flight ≡ live
  pub fits : live ≤ highest

abbrev pub Fits : ℕ → ℕ → Type 0
Fits lowest highest = (1 ≤ lowest) × (lowest ≤ highest) × (highest < 2 ^ 64)

pub new-IsBounded : (start lo hi : ℕ) → IsBounded (max lo 1) (max hi (max lo 1)) (new start lo hi) 0
unfolding new
new-IsBounded start lo hi = ground arith

module _ (lowest highest : ℕ) (f : Fits lowest highest) where
  pub try_take-IsBounded :
      (l l' : AdaptiveLimiter) (live : ℕ)
      → IsBounded lowest highest l live
      → try_take l ≡ (true, l')
      → IsBounded lowest highest l' (live + 1)
  unfolding try_take
  try_take-IsBounded l l' live b e = ground arith

  pub try_take-full :
      (l l' : AdaptiveLimiter)
      → try_take l ≡ (false, l')
      → (l' ≡ l) × (l.inner.limit ≤ l.inner.in_flight)
  unfolding try_take
  try_take-full l l' e = ground arith

  pub on_success-IsBounded :
      (l : AdaptiveLimiter) (live : ℕ)
      → IsBounded lowest highest l live
      → IsBounded lowest highest (on_success l).1 live
  unfolding on_success
  on_success-IsBounded l live b = ground arith

  pub on_rate_limited-IsBounded :
      (l : AdaptiveLimiter) (live : ℕ)
      → IsBounded lowest highest l live
      → IsBounded lowest highest (on_rate_limited l) live
  unfolding on_rate_limited
  on_rate_limited-IsBounded l live b = ground arith

  pub release-IsBounded :
      (l : AdaptiveLimiter) (live : ℕ)
      → IsBounded lowest highest l live
      → IsBounded lowest highest (release l) (live - 1)
  unfolding release
  release-IsBounded l live b = ground arith
