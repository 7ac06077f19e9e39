-- ===== src/Tests/LimiterRuns.antt =====
-- Two tasks that share a limiter, crates/jesterky-model/src/limiter.rs.
use Prim.Native.Nat.{max}
use jesterky.Prelude.{
  ℕ, ◌≡◌, refl, ◌<◌, ◌≤◌, ◌&&◌, ◌||◌, ◌==◌, true, false, not, Bool, All, [], ◌∷◌, arith,
}
use jesterky.Limiter.Defs.{AdaptiveLimiter, new, try_take, on_rate_limited}
use jesterky.Limiter.Notify.{Notify, Task}
use jesterky.Limiter.Schedule.{World, arms, takes, sleeps, initial, Reach, here, next}
use jesterky.Limiter.Safety.{ceiling_bounds, sleeper_waits_for_permit}
use jesterky.Limiter.Rate.{raise_after_limit, clean_calls}

abbrev notify : Notify
notify = record {
  Waiters = Task → Bool;
  nobody = λ t. false;
  waiting = λ ws t. ws t;
  enable = λ t ws u. t == u || ws u;
  drop_notified = λ t ws u. not (t == u) && ws u;
  notify_waiters = λ ws u. false;
  waiting-nobody = λ t. refl;
  waiting-enable = λ t u ws. refl;
  waiting-drop = λ t u ws. refl;
  waiting-notify = λ u ws. refl;
}

abbrev limiter : ℕ → AdaptiveLimiter
limiter in_flight = record {
  inner = record { limit = 1; in_flight = in_flight; successes = 0 };
  lowest = 1;
  highest = 4;
}

abbrev armed : World (Task → Bool)
armed = record {
  limiter = limiter 0;
  waiters = notify.enable 1 notify.nobody;
  live = 0;
  asleep = [];
  due = 0;
}

abbrev taken : World (Task → Bool)
taken = record armed {
  limiter = limiter 1;
  waiters = notify.drop_notified 1 armed.waiters;
  live = 1;
}

abbrev armed_again : World (Task → Bool)
armed_again = record taken { waiters = notify.enable 2 taken.waiters }

-- Task 1 has the one permit, and task 2 waits for it.
abbrev asleep : World (Task → Bool)
asleep = record armed_again { asleep = 2 ∷ [] }

reaches_asleep : Reach notify (initial notify (new 1 1 4)) asleep
unfolding new try_take
reaches_asleep =
    next {u = armed_again}
      (next {u = taken} (next {u = armed} (next here (arms 1)) (takes 1 (limiter 1) refl)) (arms 2))
      (sleeps 2 (limiter 1) refl)

ceiling_bounds_example :
    (max 1 1 ≤ asleep.limiter.inner.limit)
    × (asleep.limiter.inner.limit ≤ max 4 (max 1 1))
    × (asleep.limiter.inner.in_flight ≡ asleep.live)
    × (asleep.live ≤ max 4 (max 1 1))
ceiling_bounds_example =
    ceiling_bounds notify 1 1 4 asleep (omega arith) (omega arith) reaches_asleep

sleeper_waits_for_permit_example :
    All
      (λ (t : Task).
        notify.waiting asleep.waiters t ≡ true
        → (asleep.limiter.inner.limit ≤ asleep.live) × (0 < asleep.live))
      asleep.asleep
sleeper_waits_for_permit_example =
    sleeper_waits_for_permit notify 1 1 4 asleep (omega arith) (omega arith) reaches_asleep refl

abbrev busy : AdaptiveLimiter
busy = record {
  inner = record { limit = 9; in_flight = 7; successes = 5 };
  lowest = 2;
  highest = 16;
}

raise_after_limit_example :
    ((on_rate_limited busy).inner.limit ≡ 4)
    × ((clean_calls 4 (on_rate_limited busy)).inner.limit ≡ 5)
raise_after_limit_example =
    raise_after_limit busy 4 (omega arith) (omega arith) (omega arith) (omega arith)
