-- ===== src/Budget/Nearest.antt =====
-- The cap that a snapshot names as nearest.

use jesterky.Budget.Numbers.{items-IsNumber, IsNumber?, seconds}
use jesterky.Budget.Engine.{
  is_valid, eta_enabled, budget_snapshot, status_part, BudgetObservation, nearer, nearest_from,
}
use jesterky.Budget.Defs.{BudgetPlan, BudgetStatus}
use jesterky.Prelude.{
  keep, is_empty, ◌∙◌, String, Option-cases, sym, ◌⊎◌, subst, [], refl, true, ◌∷◌, All, List, inr,
  inl, none, arith, false, Bool-cases, ◌≡◌, some, Option,
}
use jesterky.F64.{zero_f64, ordered, is_nan, f64_lt, F64, f64_max}

-- No item's seconds undercut these.
abbrev pub NotBelow : F64 → Option F64 → Type 0
NotBelow b none = Unit
NotBelow b (some s) = f64_lt s b ≡ false

not_lt_trans :
    (a b c : F64)
    → is_nan a ≡ false
    → is_nan b ≡ false
    → is_nan c ≡ false
    → f64_lt a b ≡ false
    → f64_lt b c ≡ false
    → f64_lt a c ≡ false
unfolding f64_lt ordered
not_lt_trans a b c p q r h k = ground arith

abbrev best_seconds : Option (F64 × BudgetStatus) → Option F64
best_seconds none = none
best_seconds (some b) = some b.0

nearer_lem :
    (best : Option (F64 × BudgetStatus)) (secs : Option F64) (item : BudgetStatus) (b : F64)
    → is_nan b ≡ false
    → IsNumber? (best_seconds best)
    → IsNumber? secs
    → NotBelow b (best_seconds (nearer best secs item))
    → NotBelow b (best_seconds best) × NotBelow b secs
nearer_lem none none item b p q r h = (tt, tt)
nearer_lem none (some s) item b p q r h = (tt, h)
nearer_lem (some a) none item b p q r h = (h, tt)
nearer_lem (some a) (some s) item b p q r h = elim (Bool-cases (f64_lt s a.0)) [
  | inl less ↦ unfold f64_lt ordered in ground (arith, less, rw less at h, p, q, r)
  | inr other ↦ (rw other at h, not_lt_trans s a.0 b r q p other (rw other at h))
]

nearer-IsNumber :
    (best : Option (F64 × BudgetStatus)) (secs : Option F64) (item : BudgetStatus)
    → IsNumber? (best_seconds best)
    → IsNumber? secs
    → IsNumber? (best_seconds (nearer best secs item))
nearer-IsNumber none none item q r = tt
nearer-IsNumber none (some s) item q r = r
nearer-IsNumber (some a) none item q r = q
nearer-IsNumber (some a) (some s) item q r = elim (Bool-cases (f64_lt s a.0)) [
  | inl less ↦ rw less r
  | inr other ↦ rw other q
]

not_lt_self : (a : F64) → f64_lt a a ≡ false
unfolding f64_lt
not_lt_self a = ground arith

some_eq : (c b : F64 × BudgetStatus) → some c ≡ some b → c ≡ b
some_eq c b e = cc

nearest_from_lem :
    (items : List BudgetStatus) (best : Option (F64 × BudgetStatus)) (b : F64 × BudgetStatus)
    → IsNumber? (best_seconds best)
    → All (λ (i : BudgetStatus). IsNumber? (seconds i)) items
    → nearest_from best items ≡ some b
    → (is_nan b.0 ≡ false)
      × NotBelow b.0 (best_seconds best)
      × All (λ (i : BudgetStatus). NotBelow b.0 (seconds i)) items
unfolding nearest_from
nearest_from_lem [] none b q all_ e = cc
nearest_from_lem [] (some c) b q all_ e =
    subst (λ x. (is_nan x.0 ≡ false) × (f64_lt c.0 x.0 ≡ false) × Unit) (some_eq c b e)
      (q, not_lt_self c.0, tt)
nearest_from_lem (i ∷ is) best b q all_ e =
    let (number, below, rest) =
      nearest_from_lem is (nearer best (seconds i) i) b
        (nearer-IsNumber best (seconds i) i q all_.0) all_.1 e in
    let (below_best, below_item) = nearer_lem best (seconds i) i b.0 number q all_.0 below in
    (number, below_best, (below_item, rest))

abbrev In : BudgetStatus → List BudgetStatus → Type 0
In n [] = ⊥
In n (i ∷ is) = (n ≡ i) ⊎ In n is

nearer_source :
    (best : Option (F64 × BudgetStatus)) (secs : Option F64) (item : BudgetStatus)
    → (nearer best secs item ≡ best)
      ⊎ ((s : F64) × (secs ≡ some s) × (nearer best secs item ≡ some (s, item)))
nearer_source none none item = inl refl
nearer_source none (some s) item = inr (s, refl, refl)
nearer_source (some a) none item = inl refl
nearer_source (some a) (some s) item = elim (Bool-cases (f64_lt s a.0)) [
  | inl less ↦ inr (s, refl, rw less refl)
  | inr other ↦ inl (rw other refl)
]

-- What the search returns is the best before it, or an item with its own seconds.
nearest_source :
    (items : List BudgetStatus) (best : Option (F64 × BudgetStatus)) (b : F64 × BudgetStatus)
    → nearest_from best items ≡ some b
    → (best ≡ some b) ⊎ (In b.1 items × (seconds b.1 ≡ some b.0))
unfolding nearest_from
nearest_source [] best b e = inl e
nearest_source (i ∷ is) best b e = elim (nearest_source is (nearer best (seconds i) i) b e) [
  | inl before ↦ elim (nearer_source best (seconds i) i) [
    | inl kept ↦ inl (sym kept ∙ before)
    | inr (s, found, chosen) ↦ inr (
        subst (λ x. In x.1 (i ∷ is) × (seconds x.1 ≡ some x.0))
          (some_eq (s, i) b (sym chosen ∙ before)) (inl refl, found))
  ]
  | inr (within, own) ↦ inr (inr within, own)
]

nearer-none :
    (best : Option (F64 × BudgetStatus)) (secs : Option F64) (item : BudgetStatus)
    → nearer best secs item ≡ none
    → (best ≡ none) × (secs ≡ none)
nearer-none none none item e = (refl, refl)
nearer-none none (some s) item e = cc
nearer-none (some a) none item e = cc
nearer-none (some a) (some s) item e = elim (Bool-cases (f64_lt s a.0)) [
  | inl less ↦ let e' = rw less at e in cc
  | inr other ↦ let e' = rw other at e in cc
]

nearest_from-none :
    (items : List BudgetStatus) (best : Option (F64 × BudgetStatus))
    → nearest_from best items ≡ none
    → (best ≡ none) × All (λ (i : BudgetStatus). seconds i ≡ none) items
unfolding nearest_from
nearest_from-none [] best e = (e, tt)
nearest_from-none (i ∷ is) best e =
    let (before, rest) = nearest_from-none is (nearer best (seconds i) i) e in
    let (none_before, none_here) = nearer-none best (seconds i) i before in
    (none_before, (none_here, rest))

-- The item that is named is one of the items, and no item's forecast is below its own; nothing is
-- named only where no item has a forecast.
abbrev pub IsNearest : Option BudgetStatus → List BudgetStatus → Type 0
IsNearest none items = All (λ (i : BudgetStatus). seconds i ≡ none) items
IsNearest (some n) items =
    In n items
    × ((s : F64) × (seconds n ≡ some s) × All (λ (i : BudgetStatus). NotBelow s (seconds i)) items)

found_lem :
    (items : List BudgetStatus)
    → All (λ (i : BudgetStatus). IsNumber? (seconds i)) items
    → IsNearest (status_part (nearest_from none items)) items
found_lem items numbers = elim (Option-cases (nearest_from none items)) [
  | inl nothing ↦ rw nothing (nearest_from-none items none nothing).1
  | inr (b, e) ↦ elim (nearest_source items none b e) [
    | inl before ↦ absurd cc
    | inr (within, own) ↦ rw e (within, (b.0, own, (nearest_from_lem items none b tt numbers e).2))
  ]
]

-- With forecasts enabled, the item that a snapshot names as nearest is one of its items, with a
-- number of seconds that no item's number is below; it names none only where no item has one.
pub budget_snapshot_nearest :
    (run_id : String) (plan : BudgetPlan) (observations : List BudgetObservation) (wall : F64)
    → eta_enabled plan ≡ true
    → let s = budget_snapshot run_id plan observations wall in IsNearest s.nearest s.items
unfolding budget_snapshot
budget_snapshot_nearest run_id plan observations wall on =
    let wall_secs = f64_max wall zero_f64 in
    elim (Bool-cases (is_empty plan.caps)) [
      | inl none_ ↦ rw none_ tt
      | inr some_ ↦
          rw (some_, on)
            (found_lem _
              (items-IsNumber plan observations wall_secs true (keep is_valid plan.caps)))
    ]
