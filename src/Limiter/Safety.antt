-- ===== src/Limiter/Safety.antt =====
-- What holds of a limiter in every schedule of its tasks.
use Prim.Native.Nat.{max}
use jesterky.Prelude.{
  ℕ, ◌^◌, ◌<◌, ◌≤◌, ◌≡◌, Bool, true, false, List, [], ◌∷◌, All, All-map, All-keep, arith,
}
use jesterky.Limiter.Defs.{AdaptiveLimiter, new, try_take, on_success, on_rate_limited}
use jesterky.Limiter.Notify.{Notify, Task}
use jesterky.Limiter.Bounds.{
  IsBounded, Fits, new-IsBounded, try_take-IsBounded, try_take-full, on_success-IsBounded,
  on_rate_limited-IsBounded, release-IsBounded,
}
use jesterky.Limiter.Schedule.{
  World, awake, more_due, initial, Step, arms, takes, sleeps, succeeds, rate_limited, drops,
  notifies, Reach, here, next,
}

-- A task that awaits and that nothing has woken has no room.
abbrev HasNoRoom : (n : Notify) → n.Waiters → AdaptiveLimiter → Task → Type 0
HasNoRoom n ws l t = n.waiting ws t ≡ true → l.inner.limit ≤ l.inner.in_flight

record Inv (n : Notify) (lowest highest : ℕ) (w : World n.Waiters) : Type 0 where
  bounded : IsBounded lowest highest w.limiter w.live
  stuck : w.due ≡ 0 → All (HasNoRoom n w.waiters w.limiter) w.asleep

none_waits :
    (n : Notify) (ws : n.Waiters) (l : AdaptiveLimiter) (ts : List Task)
    → All (HasNoRoom n (n.notify_waiters ws) l) ts
none_waits n ws l [] = tt
none_waits n ws l (t ∷ ts) = (λ h. cc (n.waiting-notify t ws), none_waits n ws l ts)

module _ (n : Notify) (lowest highest : ℕ) (f : Fits lowest highest) where
  still_stuck :
      (w : World n.Waiters) (l : AdaptiveLimiter) (ws : n.Waiters)
      → ((t : Task) → n.waiting ws t ≡ true → n.waiting w.waiters t ≡ true)
      → (w.limiter.inner.limit ≤ w.limiter.inner.in_flight → l.inner.limit ≤ l.inner.in_flight)
      → All (HasNoRoom n w.waiters w.limiter) w.asleep
      → All (HasNoRoom n ws l) w.asleep
  still_stuck w l ws fewer full = All-map _ _ w.asleep (λ t h waits. full (h (fewer t waits)))

  try_take_raises :
      (l l' : AdaptiveLimiter)
      → (live : ℕ) → IsBounded lowest highest l live
      → try_take l ≡ (true, l')
      → l.inner.limit ≤ l.inner.in_flight
      → l'.inner.limit ≤ l'.inner.in_flight
  unfolding try_take
  try_take_raises l l' live b e h = ground arith

  limited_lowers :
      (l : AdaptiveLimiter) (live : ℕ)
      → IsBounded lowest highest l live
      → l.inner.limit ≤ l.inner.in_flight
      → (on_rate_limited l).inner.limit ≤ (on_rate_limited l).inner.in_flight
  unfolding on_rate_limited
  limited_lowers l live b h = ground arith

  quiet_success :
      (l : AdaptiveLimiter) (due : ℕ)
      → more_due (on_success l).0 due ≡ 0
      → l.inner.limit ≤ l.inner.in_flight
      → (on_success l).1.inner.limit ≤ (on_success l).1.inner.in_flight
  unfolding on_success
  quiet_success l due e h = ground arith

  not_due : (wakes : Bool) (due : ℕ) → more_due wakes due ≡ 0 → due ≡ 0
  not_due true due e = absurd (omega arith)
  not_due false due e = e

  armed_stuck :
      (w : World n.Waiters) (t : Task)
      → All (HasNoRoom n w.waiters w.limiter) w.asleep
      → All (HasNoRoom n (n.enable t w.waiters) w.limiter) (awake t w.asleep)
  armed_stuck w t =
      All-keep _ _ _ w.asleep λ u h other waits. h (ground (arith, n.waiting-enable t u w.waiters))

  Step-Inv : {w v : World n.Waiters} → Step n w v → Inv n lowest highest w → Inv n lowest highest v
  Step-Inv {w} (arms t) i = record { bounded = i.bounded; stuck = λ e. armed_stuck w t (i.stuck e) }
  Step-Inv {w} (takes t l e) i = record {
    bounded = try_take-IsBounded lowest highest f w.limiter l w.live i.bounded e;
    stuck = λ d.
        still_stuck w l (n.drop_notified t w.waiters)
          (λ u h. ground (arith, n.waiting-drop t u w.waiters))
          (try_take_raises w.limiter l w.live i.bounded e) (i.stuck d);
  }
  Step-Inv {w} (sleeps t l e) i =
      let (same, full) = try_take-full lowest highest f w.limiter l e in
      rw same (record { bounded = i.bounded; stuck = λ d. (λ h. full, i.stuck d) })
  Step-Inv {w} succeeds i = record {
    bounded = on_success-IsBounded lowest highest f w.limiter w.live i.bounded;
    stuck = λ d.
        still_stuck w (on_success w.limiter).1 w.waiters (λ u h. h)
          (quiet_success w.limiter w.due d) (i.stuck (not_due (on_success w.limiter).0 w.due d));
  }
  Step-Inv {w} rate_limited i = record {
    bounded = on_rate_limited-IsBounded lowest highest f w.limiter w.live i.bounded;
    stuck = λ d.
        still_stuck w (on_rate_limited w.limiter) w.waiters (λ u h. h)
          (limited_lowers w.limiter w.live i.bounded) (i.stuck d);
  }
  Step-Inv {w} (drops some_live) i = record {
    bounded = release-IsBounded lowest highest f w.limiter w.live i.bounded;
    stuck = λ d. absurd (omega (arith, d));
  }
  Step-Inv {w} (notifies some_due) i = record {
    bounded = i.bounded;
    stuck = λ d. none_waits n w.waiters w.limiter w.asleep;
  }

  Reach-Inv :
      {w v : World n.Waiters} → Inv n lowest highest w → Reach n w v → Inv n lowest highest v
  Reach-Inv i here = i
  Reach-Inv i (next r s) = Step-Inv s (Reach-Inv i r)

new-Fits : (lo hi : ℕ) → lo < 2 ^ 64 → hi < 2 ^ 64 → Fits (max lo 1) (max hi (max lo 1))
new-Fits lo hi p q = (omega arith, omega arith, omega arith)

new-Inv :
    (n : Notify) (start lo hi : ℕ)
    → Inv n (max lo 1) (max hi (max lo 1)) (initial n (new start lo hi))
new-Inv n start lo hi = record { bounded = new-IsBounded start lo hi; stuck = λ e. tt }

-- In every schedule of a limiter that is made with bounds below 2^64, the ceiling lies between the
-- bounds that `new` makes of them, at least 1 and in order; the count in flight is that of the
-- live permits; and these are never more than the upper bound.
pub ceiling_bounds :
    (n : Notify) (start lo hi : ℕ) (w : World n.Waiters)
    → lo < 2 ^ 64
    → hi < 2 ^ 64
    → Reach n (initial n (new start lo hi)) w
    → (max lo 1 ≤ w.limiter.inner.limit)
      × (w.limiter.inner.limit ≤ max hi (max lo 1))
      × (w.limiter.inner.in_flight ≡ w.live)
      × (w.live ≤ max hi (max lo 1))
ceiling_bounds n start lo hi w p q r =
    let f = new-Fits lo hi p q in
    let b = (Reach-Inv n _ _ f (new-Inv n start lo hi) r).bounded in
    (b.above, b.below, b.counted, b.fits)

-- No wake-up is lost: in every schedule of a limiter that is made with bounds below 2^64, at a
-- moment at which no call of `notify_waiters` is still to come, each task that awaits and that
-- nothing has woken has as many live permits before it as the ceiling allows, and at least one.
pub sleeper_waits_for_permit :
    (n : Notify) (start lo hi : ℕ) (w : World n.Waiters)
    → lo < 2 ^ 64
    → hi < 2 ^ 64
    → Reach n (initial n (new start lo hi)) w
    → w.due ≡ 0
    → All
        (λ (t : Task).
          n.waiting w.waiters t ≡ true → (w.limiter.inner.limit ≤ w.live) × (0 < w.live))
        w.asleep
sleeper_waits_for_permit n start lo hi w p q r quiet =
    let f = new-Fits lo hi p q in
    let i = Reach-Inv n _ _ f (new-Inv n start lo hi) r in
    All-map _ _ w.asleep
      (λ t h waits. (
        omega (arith, h waits, i.bounded.counted),
        omega (arith, h waits, i.bounded.counted, i.bounded.above),
      ))
      (i.stuck quiet)
