-- ===== src/Limits/Steps.antt =====
-- Every step of the limits keeps the invariant.
use native.Mathlib.Nat.{zero-add}
use jesterky.Prelude.{
  ℕ, ◌+◌, ◌<◌, ◌≡◌, sym, subst, Bool, true, false, not, some, List, [], ◌∷◌, String, str_eq,
  if◌then◌else◌, Dict, lookup, lookup-insert, All-keep, arith, eq_iff, eq_refl, Option-cases, inl,
  inr, Bool-cases,
}
use jesterky.Limits.Defs.{Waker, LimitState, LimitSet, will_wake, poll, release, release_state}
use jesterky.Limits.Schedule.{
  Parked, World, held, drop_guard, still_parked, without, initial, Step, acquired, parks, dropped,
  Reach, here, next,
}
use jesterky.Limits.Invariant.{
  NameOk, IsRegistered, Inv, waiters_of, after_release, poll_lem, acquired-NameOk, parks-NameOk,
  dropped-NameOk, wakers-kept, parked_waker, initial-Inv,
}

-- The guards of a name are one more than after one of them is dropped.
held-drop_guard :
    (name k : String) (guards : List String)
    → 0 < held name guards
    → held k guards ≡ (if str_eq name k then 1 else 0) + held k (drop_guard name guards)
held-drop_guard name k [] h = absurd (omega arith)
held-drop_guard name k (g ∷ guards) h =
    ground (arith, held-drop_guard name k guards, eq_iff g name, eq_iff g k, eq_iff name k)

lookup-release :
    (set : LimitSet) (name k : String)
    → lookup k (release set name).1.states
      ≡ (if str_eq name k then after_release (lookup name set.states) else lookup k set.states)
unfolding release
lookup-release set name k = elim (Option-cases (lookup name set.states)) [
  | inl missing ↦ ground (arith, missing, eq_iff name k)
  | inr (s, e) ↦ ground (arith, e, lookup-insert name k (release_state s) set.states)
]

pub woken_eq :
    (set : LimitSet) (name : String) → (release set name).0 ≡ waiters_of (lookup name set.states)
unfolding release
woken_eq set name = ground arith

pub renamed :
    (set : LimitSet) (name : String) (p : Parked)
    → str_eq name p.2 ≡ true
    → IsRegistered set p
    → will_wake p.1 (waiters_of (lookup name set.states)) ≡ true
renamed set name p same h =
    subst (λ n. will_wake p.1 (waiters_of (lookup n set.states)) ≡ true)
      (sym ((eq_iff name p.2).0 same)) h

-- A future that stays parked over a release waits for another name.
not_woken :
    (set : LimitSet) (name : String) (p : Parked)
    → IsRegistered set p
    → not (will_wake p.1 (release set name).0) ≡ true
    → IsRegistered (release set name).1 p
not_woken set name p h kept = elim (Bool-cases (str_eq name p.2)) [
  | inl same ↦ let contradiction = rw (woken_eq set name, renamed set name p same h) at kept in cc
  | inr other ↦ rw (lookup-release set name p.2, other) h
]

module _ (permits : Dict ℕ) (w : World) (inv : Inv permits w) where
  module _ (t : Waker) (name : String) (set' : LimitSet) (b : Bool)
      (e : poll t w.set name ≡ some (b, set')) where
    at_other :
        (k : String)
        → str_eq name k ≡ false
        → NameOk (lookup k permits) (lookup k set'.states) (held k w.guards)
    at_other k other =
        let (s, found, ready, after) = poll_lem t w.set set' name b e in
        rw (after k, other) (inv.at k)

    at_same :
        (s : LimitState)
        → lookup name w.set.states ≡ some s
        → NameOk (lookup name permits) (some s) (held name w.guards)
    at_same s found = rw found at (inv.at name)

    IsRegistered-after : (p : Parked) → IsRegistered w.set p → IsRegistered set' p
    IsRegistered-after p h =
        let (s, found, ready, after) = poll_lem t w.set set' name b e in
        elim (Bool-cases (str_eq name p.2)) [
          | inl same ↦
              rw (after p.2, same) (wakers-kept t p.1 s (rw found at (renamed w.set name p same h)))
          | inr other ↦ rw (after p.2, other) h
        ]

  acquired-Inv :
      (f : ℕ) (t : Waker) (name : String) (set' : LimitSet)
      → poll t w.set name ≡ some (true, set')
      → Inv permits (record { set = set'; guards = name ∷ w.guards; parked = without f w.parked })
  acquired-Inv f t name set' e = record {
    at = λ k. elim (Bool-cases (str_eq name k)) [
      | inl same ↦
          let (s, found, ready, after) = poll_lem t w.set set' name true e in
          subst (λ n. NameOk (lookup n permits) (lookup n set'.states) (held n (name ∷ w.guards)))
            ((eq_iff name k).0 same)
            (rw (after name, eq_refl name)
              (acquired-NameOk t _ s _ (at_same t name set' true e s found) ready))
      | inr other ↦ rw (other, zero-add) (at_other t name set' true e k other)
    ];
    registered =
        All-keep _ _ _ w.parked (λ p h kept. IsRegistered-after t name set' true e p h)
          inv.registered;
  }

  parks-Inv :
      (f : ℕ) (t : Waker) (name : String) (set' : LimitSet)
      → poll t w.set name ≡ some (false, set')
      → Inv permits
          (record { set = set'; guards = w.guards; parked = (f, t, name) ∷ without f w.parked })
  parks-Inv f t name set' e = record {
    at = λ k. elim (Bool-cases (str_eq name k)) [
      | inl same ↦
          let (s, found, ready, after) = poll_lem t w.set set' name false e in
          subst (λ n. NameOk (lookup n permits) (lookup n set'.states) (held n w.guards))
            ((eq_iff name k).0 same)
            (rw (after name, eq_refl name)
              (parks-NameOk t _ s _ (at_same t name set' false e s found) ready))
      | inr other ↦ at_other t name set' false e k other
    ];
    registered =
        let (s, found, ready, after) = poll_lem t w.set set' name false e in
        (
          rw (after name, eq_refl name) (parked_waker t s ready),
          All-keep _ _ _ w.parked (λ p h kept. IsRegistered-after t name set' false e p h)
              inv.registered,
        );
  }

  dropped-Inv :
      (name : String)
      → 0 < held name w.guards
      → Inv permits (record {
        set = (release w.set name).1;
        guards = drop_guard name w.guards;
        parked = still_parked (release w.set name).0 w.parked;
      })
  dropped-Inv name h = record {
    at = λ k. elim (Bool-cases (str_eq name k)) [
      | inl same ↦
          subst
            (λ n.
              NameOk (lookup n permits) (lookup n (release w.set name).1.states)
                (held n (drop_guard name w.guards)))
            ((eq_iff name k).0 same)
            (rw (lookup-release w.set name name, eq_refl name)
              (dropped-NameOk _ _ _ (
                subst (NameOk (lookup name permits) (lookup name w.set.states))
                  (rw (eq_refl name) at (held-drop_guard name name w.guards h)) (inv.at name))))
      | inr other ↦
          rw (lookup-release w.set name k, other)
            (subst (NameOk (lookup k permits) (lookup k w.set.states))
              (rw (other, zero-add) at (held-drop_guard name k w.guards h)) (inv.at k))
    ];
    registered = All-keep _ _ _ w.parked (not_woken w.set name) inv.registered;
  }

pub Step-Inv : {permits : Dict ℕ} {w v : World} → Step w v → Inv permits w → Inv permits v
Step-Inv {permits} {w} (acquired f t name set' e) inv = acquired-Inv permits w inv f t name set' e
Step-Inv {permits} {w} (parks f t name set' e) inv = parks-Inv permits w inv f t name set' e
Step-Inv {permits} {w} (dropped name h) inv = dropped-Inv permits w inv name h

pub Reach-Inv : {permits : Dict ℕ} {w : World} → Reach (initial permits) w → Inv permits w
Reach-Inv {permits} here = initial-Inv permits
Reach-Inv (next r st) = Step-Inv st (Reach-Inv r)
