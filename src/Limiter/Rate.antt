-- ===== src/Limiter/Rate.antt =====
-- How fast the ceiling of a limiter moves.
use Prim.Native.Nat.{max, zero, suc}
use jesterky.Prelude.{ℕ, ◌+◌, ◌/◌, ◌^◌, ◌<◌, ◌≤◌, ◌≡◌, refl, arith, ◌==◌, if◌then◌else◌}
use jesterky.Limiter.Defs.{AdaptiveLimiter, on_success, on_rate_limited}

-- Clean calls, one after the other.
abbrev pub clean_calls : ℕ → AdaptiveLimiter → AdaptiveLimiter
clean_calls zero l = l
clean_calls (suc n) l = (on_success (clean_calls n l)).1

-- A round of clean calls: the ceiling `k` stays until the `k`-th.
abbrev Counts : ℕ → ℕ → AdaptiveLimiter → Type 0
Counts k n l =
    (l.inner.limit ≡ (if n == k then k + 1 else k))
    × (l.inner.successes ≡ (if n == k then 0 else n))

one_call :
    (l : AdaptiveLimiter) (k n : ℕ)
    → n < k
    → k < l.highest
    → l.highest < 2 ^ 64
    → Counts k n l
    → Counts k (suc n) (on_success l).1
unfolding on_success
one_call l k n h below fits c = ground arith

keeps_highest : (l : AdaptiveLimiter) → (on_success l).1.highest ≡ l.highest
unfolding on_success
keeps_highest l = ground arith

calls-highest : (l : AdaptiveLimiter) (n : ℕ) → (clean_calls n l).highest ≡ l.highest
calls-highest l zero = refl
calls-highest l (suc n) = ground (arith, keeps_highest (clean_calls n l), calls-highest l n)

calls-Counts :
    (l : AdaptiveLimiter) (k n : ℕ)
    → l.inner.limit ≡ k
    → l.inner.successes ≡ 0
    → n ≤ k
    → 0 < k
    → k < l.highest
    → l.highest < 2 ^ 64
    → Counts k n (clean_calls n l)
calls-Counts l k zero e s h pos below fits = (ground arith, ground arith)
calls-Counts l k (suc n) e s h pos below fits =
    one_call (clean_calls n l) k n (omega arith) (omega (arith, calls-highest l n))
      (omega (arith, calls-highest l n)) (calls-Counts l k n e s (omega arith) pos below fits)

-- After a rate limit the ceiling is half of what it was, but not below the lower bound, and the
-- progress made is forgotten: where that is positive and below an upper bound under 2^64, it takes
-- as many clean calls as the new ceiling to raise it by one, and fewer leave it as it is.
pub raise_after_limit :
    (l : AdaptiveLimiter) (n : ℕ)
    → let k = max (l.inner.limit / 2) l.lowest in
      n ≤ k
      → 0 < k
      → k < l.highest
      → l.highest < 2 ^ 64
      → ((on_rate_limited l).inner.limit ≡ k)
        × ((clean_calls n (on_rate_limited l)).inner.limit ≡ (if n == k then k + 1 else k))
unfolding on_rate_limited
raise_after_limit l n h pos below fits =
    let k = max (l.inner.limit / 2) l.lowest in
    (refl, (calls-Counts (on_rate_limited l) k n refl refl h pos below fits).0)
