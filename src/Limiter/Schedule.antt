-- ===== src/Limiter/Schedule.antt =====
-- Tasks that share one limiter, in any interleaving. Arming a `Notified`, the block under the lock
-- and a call of `notify_waiters` are steps of their own, as in the source.
use jesterky.Prelude.{
  ℕ, ◌+◌, ◌-◌, ◌<◌, ◌≡◌, Bool, true, false, not, List, [], ◌∷◌, keep, ◌==◌, if◌then◌else◌,
}
use jesterky.Limiter.Defs.{AdaptiveLimiter, try_take, on_success, on_rate_limited, release}
use jesterky.Limiter.Notify.{Notify, Task}

-- `live` permits are held, `asleep` has the tasks that found no room and await, and `due` calls of
-- `notify_waiters` are still to come.
pub record World (W : Type 0) : Type 0 where
  pub limiter : AdaptiveLimiter
  pub waiters : W
  pub live : ℕ
  pub asleep : List Task
  pub due : ℕ

abbrev pub awake : Task → List Task → List Task
awake t asleep = keep (λ u. not (t == u)) asleep

abbrev pub more_due : Bool → ℕ → ℕ
more_due wakes due = if wakes then due + 1 else due

abbrev pub initial : (n : Notify) → AdaptiveLimiter → World n.Waiters
initial n l = record { limiter = l; waiters = n.nobody; live = 0; asleep = []; due = 0 }

pub data Step (n : Notify) (w : World n.Waiters) : World n.Waiters → Type 0 where
  -- a task begins a round of the loop
  arms :
      (t : Task) → Step n w (record w { waiters = n.enable t w.waiters; asleep = awake t w.asleep })
  -- it finds room, and leaves the loop with a permit
  takes :
      (t : Task) (l : AdaptiveLimiter)
      → try_take w.limiter ≡ (true, l)
      → Step n w
          (record w { limiter = l; waiters = n.drop_notified t w.waiters; live = w.live + 1 })
  -- it finds none, and awaits its `Notified`
  sleeps :
      (t : Task) (l : AdaptiveLimiter)
      → try_take w.limiter ≡ (false, l)
      → Step n w (record w { limiter = l; asleep = t ∷ w.asleep })
  succeeds : Step n w (record w {
    limiter = (on_success w.limiter).1;
    due = more_due (on_success w.limiter).0 w.due;
  })
  rate_limited : Step n w (record w { limiter = on_rate_limited w.limiter })
  -- a live permit is dropped
  drops :
      0 < w.live
      → Step n w (record w { limiter = release w.limiter; live = w.live - 1; due = w.due + 1 })
  notifies :
      0 < w.due → Step n w (record w { waiters = n.notify_waiters w.waiters; due = w.due - 1 })

pub data Reach (n : Notify) (w : World n.Waiters) : World n.Waiters → Type 0 where
  here : Reach n w w
  next : {u v : World n.Waiters} → Reach n w u → Step n u v → Reach n w v
