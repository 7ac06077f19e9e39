-- ===== src/Limits/Invariant.antt =====
-- What every schedule keeps true of the limits.
use Prim.Native.Nat.{max}
use jesterky.Prelude.{
  ◌||◌, ◌++◌, ℕ, ◌+◌, ◌≤◌, ◌≡◌, refl, Bool, true, false, Option, none, some, List, [], ◌∷◌, String,
  str_eq, ◌==◌, if◌then◌else◌, Dict, lookup, lookup-insert, All, is_empty, arith, Option-cases, inl,
  inr, Bool-cases,
}
use jesterky.Limits.Defs.{
  Waker, LimitState, LimitSet, from_permits, will_wake, poll, poll_state, release_state,
}
use jesterky.Limits.Schedule.{Parked, World, held, initial}

-- A name has a semaphore exactly if the run declares it. Its permits are those declared, at least
-- one; its count is that of the live guards and stays within the permits; and tasks wait only
-- while no permit is free.
abbrev pub NameOk : Option ℕ → Option LimitState → ℕ → Type 0
NameOk none none h = h ≡ 0
NameOk (some p) (some s) h =
    (s.permits ≡ max p 1)
    × (s.active ≡ h)
    × (h ≤ s.permits)
    × (is_empty s.waiters ≡ false → s.active ≡ s.permits)
NameOk none (some s) h = ⊥
NameOk (some p) none h = ⊥

abbrev pub waiters_of : Option LimitState → List Waker
waiters_of none = []
waiters_of (some s) = s.waiters

-- The task of a parked future is among the wakers of its limit.
abbrev pub IsRegistered : LimitSet → Parked → Type 0
IsRegistered set p = will_wake p.1 (waiters_of (lookup p.2 set.states)) ≡ true

pub record Inv (permits : Dict ℕ) (w : World) : Type 0 where
  pub at :
      (name : String) → NameOk (lookup name permits) (lookup name w.set.states) (held name w.guards)
  pub registered : All (IsRegistered w.set) w.parked

lookup-from_permits :
    (permits : Dict ℕ) (name : String)
    → NameOk (lookup name permits) (lookup name (from_permits permits).states) 0
unfolding from_permits
lookup-from_permits [] name = refl
lookup-from_permits ((k, p) ∷ permits) name = elim (Bool-cases (str_eq k name)) [
  | inl same ↦ rw same (refl, refl, omega arith, λ h. cc)
  | inr other ↦ rw other (lookup-from_permits permits name)
]

pub initial-Inv : (permits : Dict ℕ) → Inv permits (initial permits)
initial-Inv permits = record { at = lookup-from_permits permits; registered = tt }

abbrev pub after_release : Option LimitState → Option LimitState
after_release none = none
after_release (some s) = some (release_state s)

will_wake-append :
    (u t : Waker) (ws : List Waker) → will_wake u (ws ++ t ∷ []) ≡ (will_wake u ws || t == u)
will_wake-append u t [] = ground arith
will_wake-append u t (w ∷ ws) = ground (arith, will_wake-append u t ws)

-- A poll that does not fault changes the state of its own name, by `poll_state`.
pub poll_lem :
    (t : Waker) (set set' : LimitSet) (name : String) (b : Bool)
    → poll t set name ≡ some (b, set')
    → (s : LimitState) × (lookup name set.states ≡ some s)
      × ((poll_state t s).0 ≡ b)
      × ((k : String)
          → lookup k set'.states
            ≡ (if str_eq name k then some (poll_state t s).1 else lookup k set.states))
unfolding poll
poll_lem t set set' name b h = elim (Option-cases (lookup name set.states)) [
  | inl missing ↦ absurd (ground (arith, missing))
  | inr (s, e) ↦ (
    s,
    e,
    ground (arith, e),
    λ k. ground (arith, e, lookup-insert name k (poll_state t s).1 set.states),
  )
]

pub acquired-NameOk :
    (t : Waker) (p : Option ℕ) (s : LimitState) (h : ℕ)
    → NameOk p (some s) h
    → (poll_state t s).0 ≡ true
    → NameOk p (some (poll_state t s).1) (1 + h)
unfolding poll_state
acquired-NameOk t none s h inv r = absurd inv
acquired-NameOk t (some p) s h inv r = ground arith

pub parks-NameOk :
    (t : Waker) (p : Option ℕ) (s : LimitState) (h : ℕ)
    → NameOk p (some s) h
    → (poll_state t s).0 ≡ false
    → NameOk p (some (poll_state t s).1) h
unfolding poll_state
parks-NameOk t none s h inv r = absurd inv
parks-NameOk t (some p) s h inv r = ground arith

pub dropped-NameOk :
    (p : Option ℕ) (o : Option LimitState) (h : ℕ)
    → NameOk p o (1 + h)
    → NameOk p (after_release o) h
unfolding release_state
dropped-NameOk none none h inv = absurd (omega arith)
dropped-NameOk none (some s) h inv = inv
dropped-NameOk (some p) none h inv = inv
dropped-NameOk (some p) (some s) h inv = ground arith

-- Wakers are only added by a poll, and the task that parks is among them.
pub wakers-kept :
    (t u : Waker) (s : LimitState)
    → will_wake u s.waiters ≡ true
    → will_wake u (poll_state t s).1.waiters ≡ true
unfolding poll_state
wakers-kept t u s h = ground (arith, will_wake-append u t s.waiters)

pub parked_waker :
    (t : Waker) (s : LimitState)
    → (poll_state t s).0 ≡ false
    → will_wake t (poll_state t s).1.waiters ≡ true
unfolding poll_state
parked_waker t s h = ground (arith, will_wake-append t t s.waiters)
