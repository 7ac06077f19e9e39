-- ===== src/Limiter/Notify.antt =====
-- `tokio::sync::Notify`, which limiter.rs takes from the library tokio, as far as the limiter
-- relies on it: which tasks have an enabled `Notified` that nothing has woken.
use jesterky.Prelude.{ℕ, ◌≡◌, Bool, false, not, ◌&&◌, ◌||◌, ◌==◌}

abbrev pub Task : Type 0
Task = ℕ

-- `waiting n t`: the `Notified` of task `t` is enabled and not notified.
pub record Notify : Type 1 where
  pub Waiters : Type 0
  pub nobody : Waiters
  pub waiting : Waiters → Task → Bool
  pub enable : Task → Waiters → Waiters
  -- Dropping the `Notified` of a task.
  pub drop_notified : Task → Waiters → Waiters
  pub notify_waiters : Waiters → Waiters
  pub waiting-nobody : (t : Task) → waiting nobody t ≡ false
  pub waiting-enable : (t u : Task) (n : Waiters) → waiting (enable t n) u ≡ (t == u || waiting n u)
  pub waiting-drop :
      (t u : Task) (n : Waiters) → waiting (drop_notified t n) u ≡ (not (t == u) && waiting n u)
  -- It wakes every enabled `Notified`.
  pub waiting-notify : (u : Task) (n : Waiters) → waiting (notify_waiters n) u ≡ false
