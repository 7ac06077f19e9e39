-- ===== src/Runner/LimitSteps.antt =====
-- A session keeps what its body keeps, taking a permit before and giving it back after included.
use jesterky.Limits.{check_known, poll, LimitError, LimitSet, release}
use jesterky.Topology.{Limit}
use jesterky.Json.{Value}
use jesterky.Runner.Errors.{CoreError}
use jesterky.Prelude.{refl, true, false, none, err, ok, ◌≡◌, some, Bool, Option, Result, String}
use jesterky.Runner.Execute.{
  polled, refused, limit_json, wait_for, known_limit_in, drop_limit, under_limit,
}
use jesterky.Runner.Keeps.{try-Keeps, emits-Keeps, bind-Keeps, since, After, Keeps, IsKept}
use jesterky.Runner.Seam.{out_of_fuel, hangs, returns, RunCtx, Host, RunState}
use jesterky.Event.{semaphore_acquired, semaphore_released, NodePath}
use jesterky.Runner.Monad.{
  attempted, try, and_then_run, RunWorld, Exec, emits, Answer, attempt, ◌>>=◌,
}

module _ {S : Type 0} (F : Type 0) (R : RunState S → RunState S → Type 0) (k : IsKept R)
    (host : Host S) (ctx : RunCtx) where
  -- What comes after the body of a session that holds a permit.
  abbrev tail_of : NodePath → String → Result CoreError Value → Exec S Value
  tail_of path name result = drop_limit name >>= λ (w : Unit).
      emits host path 0 semaphore_released (limit_json name) >>= λ (x : Unit). try result

  drop-After :
      (path : NodePath) (name : String) (s u : RunState S) (o : Answer S Value)
      → ((t : RunState S) → R u t → R s (record t { limits = (release t.limits name).1 }))
      → After F R u o
      → After F R s (and_then_run (attempted o) (tail_of path name))
  unfolding drop_limit ◌>>=◌ Keeps
  drop-After path name s u (returns (r, w)) h a =
      let t = record w.1 { limits = (release w.1.limits name).1 } in
      since F R k s t _ (h w.1 a) (
        bind-Keeps F R k (emits host path 0 semaphore_released (limit_json name))
          (λ (x : Unit). try r) (emits-Keeps F R k host path 0 semaphore_released (limit_json name))
          (λ x. try-Keeps F R k r) (w.0, t))
  drop-After path name s u hangs h a = tt
  drop-After path name s u out_of_fuel h a = a

  polled-After :
      (path : NodePath) (name : String) (body : Exec S Value) (w : RunWorld S)
      (p : Option (Bool × LimitSet))
      → Keeps F R body
      → poll 0 w.1.limits name ≡ p
      → After F R w.1 (
          and_then_run (polled w p) λ (u : Unit).
            emits host path 0 semaphore_acquired (limit_json name) >>= λ (v : Unit).
            attempt body >>= tail_of path name)
  unfolding Keeps ◌>>=◌ attempt emits
  polled-After path name body w none h e = tt
  polled-After path name body w (some (false, set)) h e = tt
  polled-After path name body w (some (true, set)) h e =
      let s1 = record w.1 { limits = set } in
      let acquired = emits-Keeps F R k host path 0 semaphore_acquired (limit_json name) (w.0, s1) in
      drop-After path name w.1 _ _ (λ t r. k.guarded w.1 t name set e (k.later s1 _ t acquired r))
        (h _)

  known-After :
      (path : NodePath) (name : String) (body : Exec S Value) (w : RunWorld S)
      (r : Result LimitError Unit)
      → Keeps F R body
      → After F R w.1 (
          and_then_run (returns (refused r, w)) λ (t : Unit). wait_for name >>= λ (u : Unit).
          emits host path 0 semaphore_acquired (limit_json name) >>= λ (v : Unit).
          attempt body >>= tail_of path name)
  unfolding wait_for ◌>>=◌
  known-After path name body w (ok u) h = polled-After path name body w _ h refl
  known-After path name body w (err e) h = k.here w.1

  pub under_limit-Keeps :
      (path : NodePath) (limit_ : Option Limit) (body : Exec S Value)
      → Keeps F R body
      → Keeps F R (under_limit host ctx path limit_ body)
  unfolding under_limit known_limit_in Keeps ◌>>=◌
  under_limit-Keeps path none body h w = h w
  under_limit-Keeps path (some l) body h w =
      known-After path l.name body w (check_known w.1.limits l.name) h
