-- ===== src/Limits/Schedule.antt =====
-- Tasks that acquire, wait for and drop the limits of one run, in any interleaving.
use jesterky.Prelude.{
  ◌==◌, ℕ, ◌+◌, ◌<◌, ◌≡◌, true, false, not, some, List, [], ◌∷◌, String, str_eq, keep,
  if◌then◌else◌, Dict,
}
use jesterky.Limits.Defs.{Waker, LimitSet, from_permits, will_wake, poll, release}

-- A future that waits: its own number, the task that polls it, and the limit.
abbrev pub Parked : Type 0
Parked = ℕ × Waker × String

-- `guards` has the name of each live `LimitGuard`; `parked` has each future whose last poll was
-- pending and whose task has not been woken since.
pub record World : Type 0 where
  pub set : LimitSet
  pub guards : List String
  pub parked : List Parked

abbrev pub held : String → List String → ℕ
held name [] = 0
held name (g ∷ guards) = (if str_eq g name then 1 else 0) + held name guards

-- One live guard fewer.
abbrev pub drop_guard : String → List String → List String
drop_guard name [] = []
drop_guard name (g ∷ guards) = if str_eq g name then guards else g ∷ drop_guard name guards

-- A woken task polls all its futures again, so none of them is parked.
abbrev pub still_parked : List Waker → List Parked → List Parked
still_parked woken parked = keep (λ (p : Parked). not (will_wake p.1 woken)) parked

abbrev pub without : ℕ → List Parked → List Parked
without f parked = keep (λ (p : Parked). not (p.0 == f)) parked

abbrev pub initial : Dict ℕ → World
initial permits = record { set = from_permits permits; guards = []; parked = [] }

pub data Step (w : World) : World → Type 0 where
  -- a poll that is ready makes a guard
  acquired :
      (f : ℕ) (t : Waker) (name : String) (set' : LimitSet)
      → poll t w.set name ≡ some (true, set')
      → Step w (record { set = set'; guards = name ∷ w.guards; parked = without f w.parked })
  -- a poll that is pending parks the future
  parks :
      (f : ℕ) (t : Waker) (name : String) (set' : LimitSet)
      → poll t w.set name ≡ some (false, set')
      → Step w
          (record { set = set'; guards = w.guards; parked = (f, t, name) ∷ without f w.parked })
  -- a live guard is dropped
  dropped :
      (name : String)
      → 0 < held name w.guards
      → Step w (record {
        set = (release w.set name).1;
        guards = drop_guard name w.guards;
        parked = still_parked (release w.set name).0 w.parked;
      })

pub data Reach (w : World) : World → Type 0 where
  here : Reach w w
  next : {u v : World} → Reach w u → Step u v → Reach w v
