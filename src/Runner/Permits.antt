-- ===== src/Runner/Permits.antt =====
-- A node gives back every permit that it takes.
use jesterky.Runner.NodeSteps.{execute_node-Keeps}
use jesterky.Runner.Execute.{execute_node}
use jesterky.Runner.Errors.{CoreError}
use jesterky.Runner.Monad.{Answer, RunWorld}
use jesterky.Json.{Value}
use jesterky.Event.{NodePath}
use jesterky.Topology.{Node}
use jesterky.Runner.Keeps.{After, IsKept, Keeps}
use jesterky.Runner.Seam.{returns, RunCtx, Host, RunState}
use jesterky.Limits.{LimitState, release_state, poll_state, release, LimitSet, poll}
use jesterky.Prelude.{
  subst, Result, eq_iff, refl, eq_refl, ap, ◌∙◌, lookup-insert, arith, sym, ltb, Bool-cases, inr,
  inl, insert, Option-cases, Bool, ◌+◌, true, none, some, lookup, ℕ, Option, ◌≡◌, String,
}

abbrev counts : Option LimitState → Option (ℕ × ℕ)
counts none = none
counts (some state) = some (state.permits, state.active)

-- The permits of a limit, and how many of them are taken.
abbrev pub permits_of : String → LimitSet → Option (ℕ × ℕ)
permits_of name set = counts (lookup name set.states)

-- Each limit has as many permits taken as before.
abbrev pub SamePermits : {S : Type 0} → RunState S → RunState S → Type 0
SamePermits s t = (name : String) → permits_of name t.limits ≡ permits_of name s.limits

abbrev set_of : Option (Bool × LimitSet) → LimitSet → LimitSet
set_of none d = d
set_of (some p) d = p.1

poll_takes :
    (set taken : LimitSet) (name : String)
    → poll 0 set name ≡ some (true, taken)
    → (state : LimitState) × (lookup name set.states ≡ some state)
      × (taken.states ≡ insert name (record state { active = state.active + 1 }) set.states)
unfolding poll poll_state
poll_takes set taken name e = elim (Option-cases (lookup name set.states)) [
  | inl missing ↦ absurd (cc (rw missing at e))
  | inr (state, found) ↦ elim (Bool-cases (ltb state.active state.permits)) [
    | inl free ↦ (
      state,
      found,
      sym (ap (λ (p : Option (Bool × LimitSet)). (set_of p taken).states) (rw (found, free) at e)),
    )
    | inr full ↦ absurd (cc (rw (found, full) at e))
  ]
]

given_back :
    (set taken later : LimitSet) (name k : String)
    → poll 0 set name ≡ some (true, taken)
    → permits_of k later ≡ permits_of k taken
    → permits_of name later ≡ permits_of name taken
    → permits_of k (release later name).1 ≡ permits_of k set
unfolding release release_state
given_back set taken later name k e same own =
    let (state, found, inserted) = poll_takes set taken name e in
    let put_ = record state { active = state.active + 1 } in
    elim (Option-cases (lookup name later.states)) [
      | inl missing ↦ absurd (
          ground
            (arith, missing, own, inserted, lookup-insert name name put_ set.states, eq_refl name))
      | inr (after, there) ↦ ground (
        arith,
        there,
        own,
        same,
        inserted,
        found,
        lookup-insert name k put_ set.states,
        lookup-insert name name put_ set.states,
        lookup-insert name k (release_state after) later.states,
        eq_iff name k,
        eq_refl name,
      )
    ]

pub permits-IsKept : {S : Type 0} → IsKept {S = S} SamePermits
permits-IsKept = record {
  here = λ s name. refl;
  later = λ s t u a b name. b name ∙ a name;
  on_host = λ s h name. refl;
  on_emit = λ s path iteration kind_ payload t name. refl;
  on_record = λ s r name. refl;
  on_io = λ s lane io name. refl;
  guarded = λ s t name set e a k. given_back s.limits set t.limits name k e (a k) (a name);
}

-- However a run of a node that returns has gone, errors included, each limit has as many permits
-- taken after it as before it: a session gives its permit back.
pub permits_given_back :
    {S : Type 0} (host : Host S) (ctx : RunCtx) (fuel : ℕ) (n : Node) (path : NodePath)
    (override : Option Value) (iteration : ℕ) (w w' : RunWorld S) (r : Result CoreError Value)
    (name : String)
    → execute_node host ctx fuel path n override iteration w ≡ returns (r, w')
    → permits_of name w'.1.limits ≡ permits_of name w.1.limits
unfolding Keeps
permits_given_back host ctx fuel n path override iteration w w' r name e =
    let kept =
      execute_node-Keeps SamePermits permits-IsKept host ctx fuel n path override iteration w in
    subst (λ (o : Answer _ Value). After Unit SamePermits w.1 o) e kept name
