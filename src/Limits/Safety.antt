-- ===== src/Limits/Safety.antt =====
-- What holds of the limits in every reachable state.
use Prim.Native.Nat.{max}
use jesterky.Prelude.{
  err, All-map, insert, ℕ, ◌<◌, ◌≤◌, ◌≡◌, refl, true, false, not, Option, none, some, List, [], ◌∷◌,
  String, str_eq, ltb, is_empty, Dict, lookup, All, All-keep, arith, Option-cases, inl, inr,
  Bool-cases, ok,
}
use jesterky.Limits.Defs.{
  unknown, Waker, LimitState, LimitSet, will_wake, check_known, poll, poll_state, release,
}
use jesterky.Limits.Schedule.{Parked, World, held, still_parked, initial, Reach}
use jesterky.Limits.Invariant.{NameOk, IsRegistered, Inv, waiters_of}
use jesterky.Limits.Steps.{Reach-Inv, renamed, woken_eq}

nonempty : (ws : List Waker) (t : Waker) → will_wake t ws ≡ true → is_empty ws ≡ false
nonempty [] t h = cc
nonempty (w ∷ ws) t h = refl

declared_state :
    (permits : Dict ℕ) (w : World) (name : String) (p : ℕ)
    → Inv permits w
    → lookup name permits ≡ some p
    → (s : LimitState) × (lookup name w.set.states ≡ some s)
      × NameOk (some p) (some s) (held name w.guards)
declared_state permits w name p inv declared = elim (Option-cases (lookup name w.set.states)) [
  | inl missing ↦ absurd (rw (declared, missing) at (inv.at name))
  | inr (s, e) ↦ (s, e, rw (declared, e) at (inv.at name))
]

-- In every schedule the live guards of a limit are at most its declared permits, where a
-- declaration of 0 counts as 1.
pub held-le-permits :
    (permits : Dict ℕ) (w : World) (name : String) (p : ℕ)
    → Reach (initial permits) w
    → lookup name permits ≡ some p
    → held name w.guards ≤ max p 1
held-le-permits permits w name p r declared =
    let (s, e, known) = declared_state permits w name p (Reach-Inv r) declared in omega arith

-- In every schedule a poll of a declared limit passes the test of `acquire` and does not fault; it
-- is ready exactly if fewer guards are live than the permits allow.
pub poll_ready :
    (permits : Dict ℕ) (w : World) (t : Waker) (name : String) (p : ℕ)
    → Reach (initial permits) w
    → lookup name permits ≡ some p
    → (set' : LimitSet) × (check_known w.set name ≡ ok tt)
      × (poll t w.set name ≡ some (ltb (held name w.guards) (max p 1), set'))
unfolding check_known poll
poll_ready permits w t name p r declared =
    let (s, e, known) = declared_state permits w name p (Reach-Inv r) declared in
    (
      record { states = insert name (poll_state t s).1 w.set.states },
      rw e,
      ground (arith, e, known.0, known.1),
    )

-- A limit that the run does not declare is refused in every schedule.
pub undeclared_refused :
    (permits : Dict ℕ) (w : World) (name : String)
    → Reach (initial permits) w
    → lookup name permits ≡ none
    → check_known w.set name ≡ err (unknown name)
unfolding check_known
undeclared_refused permits w name r none_declared = elim (Option-cases (lookup name w.set.states)) [
  | inl missing ↦ rw missing
  | inr (s, e) ↦ absurd (rw (none_declared, e) at ((Reach-Inv r).at name))
]

full_of_waiting :
    (o : Option ℕ) (s : Option LimitState) (h : ℕ) (t : Waker)
    → NameOk o s h
    → will_wake t (waiters_of s) ≡ true
    → 0 < h
full_of_waiting o none h t known waits = cc
full_of_waiting none (some s) h t known waits = absurd known
full_of_waiting (some p) (some s) h t known waits =
    omega (arith, known.3 (nonempty s.waiters t waits))

-- No wake-up is lost: in every schedule each parked future waits for a limit of which some guard
-- is live.
pub parked_waits_for_guard :
    (permits : Dict ℕ) (w : World)
    → Reach (initial permits) w
    → All (λ (p : Parked). 0 < held p.2 w.guards) w.parked
parked_waits_for_guard permits w r =
    let inv = Reach-Inv r in
    All-map _ _ w.parked (λ p h. full_of_waiting _ _ _ p.1 (inv.at p.2) h) inv.registered

stays_for_other :
    (set : LimitSet) (name : String) (p : Parked)
    → IsRegistered set p
    → not (will_wake p.1 (release set name).0) ≡ true
    → str_eq name p.2 ≡ false
stays_for_other set name p h kept = elim (Bool-cases (str_eq name p.2)) [
  | inl same ↦ let contradiction = rw (woken_eq set name, renamed set name p same h) at kept in cc
  | inr other ↦ other
]

-- In every schedule, dropping a guard wakes every future that waits for its limit.
pub drop_wakes_every :
    (permits : Dict ℕ) (w : World) (name : String)
    → Reach (initial permits) w
    → All (λ (p : Parked). str_eq name p.2 ≡ false) (still_parked (release w.set name).0 w.parked)
drop_wakes_every permits w name r =
    All-keep _ _ _ w.parked (stays_for_other w.set name) (Reach-Inv r).registered
