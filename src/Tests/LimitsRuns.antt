-- ===== src/Tests/LimitsRuns.antt =====
-- Two tasks and one permit, crates/jesterky-core/src/limits.rs.
use jesterky.Limits.Safety.{held-le-permits, parked_waits_for_guard}
use jesterky.Prelude.{refl, insert, ◌<◌, ◌≤◌, [], ℕ, ◌∷◌, Dict, All}
use jesterky.Limits.Schedule.{parks, acquired, here, next, initial, Reach, Parked, held, World}
use jesterky.Limits.{poll_state, poll, LimitSet, from_permits}
use Prim.Native.Nat.{max}

abbrev one_gpu : Dict ℕ
one_gpu = ("gpu", 1) ∷ []

abbrev after_acquire : LimitSet
after_acquire = record { states = ("gpu", record { permits = 1; active = 1; waiters = [] }) ∷ [] }

abbrev after_park : LimitSet
after_park = record { states = ("gpu", record { permits = 1; active = 1; waiters = 8 ∷ [] }) ∷ [] }

-- Task 7 holds the permit and task 8 waits for it.
abbrev two_tasks : World
two_tasks = record { set = after_park; guards = "gpu" ∷ []; parked = (1, 8, "gpu") ∷ [] }

two_tasks-Reach : Reach (initial one_gpu) two_tasks
unfolding from_permits poll poll_state insert
two_tasks-Reach =
    next (next here (acquired 0 7 "gpu" after_acquire refl)) (parks 1 8 "gpu" after_park refl)

held-le-permits_example : held "gpu" two_tasks.guards ≤ max 1 1
held-le-permits_example = held-le-permits one_gpu two_tasks "gpu" 1 two_tasks-Reach refl

parked_waits_for_guard_example :
    All (λ (p : Parked). 0 < held p.2 two_tasks.guards) two_tasks.parked
parked_waits_for_guard_example = parked_waits_for_guard one_gpu two_tasks two_tasks-Reach
