-- ===== src/Limits/Defs.antt =====
-- The semaphores of a run, crates/jesterky-core/src/limits.rs. A waker is the number of the task
-- that it wakes: `will_wake` compares tasks. `HashMap::get_mut(..).expect(..)` faults, `none`, on a
-- missing name.
use Prim.Native.Nat.{max}
use jesterky.Prelude.{
  ℕ, ◌+◌, ◌-◌, Bool, true, false, Option, none, some, List, [], ◌∷◌, ◌++◌, String, map, any, ltb,
  ◌==◌, if◌then◌else◌, Result, ok, err, Dict, lookup, insert, contains_key,
}

abbrev pub Waker : Type 0
Waker = ℕ

pub record LimitState : Type 0 where
  pub permits : ℕ
  pub active : ℕ
  pub waiters : List Waker

pub record LimitSet : Type 0 where
  pub states : Dict LimitState

pub data LimitError : Type 0 where
  unknown : String → LimitError

abbrev fresh_state : String × ℕ → String × LimitState
fresh_state (name, permits) = (name, record { permits = max permits 1; active = 0; waiters = [] })

unfoldable pub from_permits : Dict ℕ → LimitSet
from_permits permits = record { states = map fresh_state permits }

-- The test of `acquire` before its first poll.
unfoldable pub check_known : LimitSet → String → Result LimitError Unit
check_known set name = if contains_key name set.states then ok tt else err (unknown name)

abbrev pub will_wake : Waker → List Waker → Bool
will_wake waker waiters = any (λ w. w == waker) waiters

-- The closure of `poll_fn`: `true` is `Poll::Ready(())`.
unfoldable pub poll_state : Waker → LimitState → Bool × LimitState
poll_state waker state =
    if ltb state.active state.permits then (true, record state { active = state.active + 1 }) else (
      false,
      if will_wake waker state.waiters
          then state
          else record state { waiters = state.waiters ++ waker ∷ [] },
    )

abbrev stored : LimitSet → String → Bool × LimitState → Bool × LimitSet
stored set name (ready, state) = (ready, record { states = insert name state set.states })

abbrev poll_found : Waker → LimitSet → String → Option LimitState → Option (Bool × LimitSet)
poll_found waker set name none = none
poll_found waker set name (some state) = some (stored set name (poll_state waker state))

-- One poll of the future that `acquire` returns.
unfoldable pub poll : Waker → LimitSet → String → Option (Bool × LimitSet)
unfolding poll_state
poll waker set name = poll_found waker set name (lookup name set.states)

-- `saturating_sub` is the subtraction of ℕ.
unfoldable pub release_state : LimitState → LimitState
release_state state = record state { active = state.active - 1; waiters = [] }

abbrev release_found : LimitSet → String → Option LimitState → List Waker × LimitSet
release_found set name none = ([], set)
release_found set name (some state) =
    (state.waiters, record { states = insert name (release_state state) set.states })

-- `LimitSet::release`, which dropping a `LimitGuard` calls: the woken tasks, and the set.
unfoldable pub release : LimitSet → String → List Waker × LimitSet
unfolding release_state
release set name = release_found set name (lookup name set.states)
