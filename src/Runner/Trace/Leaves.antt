-- ===== src/Runner/Trace/Leaves.antt =====
-- Kept leaves are among the leaves that the self-check collects, and sorting leaves them there.
use jesterky.Clock.Lanes.{addr_eq_refl}
use jesterky.Prelude.{
  Bool-cases, any-append, refl, suc, true, [], arith, ◌&&◌, ◌∷◌, inr, inl, ◌⊎◌, ◌≡◌, all, List, ℕ,
  Bool,
}
use jesterky.Event.{addr_eq, addr_cmp, Addr}
use jesterky.Artifact.{
  collect_children, has_addr, process_node, collect_leaf_addrs, info_of, child, Children,
  ProcessNode, RecordedOutput,
}
use jesterky.Runner.Trace.Kept.{into_children, KeptIn, Kept}
use jesterky.Runner.Trace.Sort.{
  is_gt, sort_children, sort_trace, place_recorded, place_child, sort_recorded,
}

place_keeps :
    (a : Addr) (d : ℕ) (n : ProcessNode) (cs : Children)
    → Kept a d n ⊎ KeptIn a d cs
    → KeptIn a d (place_child n cs)
unfolding place_child Kept KeptIn
place_keeps a d n Children.none (inl k) = inl k
place_keeps a d n Children.none (inr k) = absurd k
place_keeps a d n (child c cs) k =
    elim (Bool-cases (is_gt (addr_cmp (info_of n).addr (info_of c).addr))) [
      | inl after ↦ rw after (elim k [
        | inl here ↦ inr (place_keeps a d n cs (inl here))
        | inr (inl first) ↦ inl first
        | inr (inr later) ↦ inr (place_keeps a d n cs (inr later))
      ])
      | inr before ↦ rw before k
    ]

mutual
  unfolding sort_trace Kept

  pub sort_keeps : (a : Addr) (d : ℕ) (n : ProcessNode) → Kept a d n → Kept a d (sort_trace n)
  sort_keeps a d (process_node info Children.none) k = k
  sort_keeps a d (process_node info (child c cs)) k =
      into_children a d info _ (sort_children_keeps a (suc d) (child c cs) k)

  sort_children_keeps :
      (a : Addr) (d : ℕ) (cs : Children) → KeptIn a d cs → KeptIn a d (sort_children cs)
  sort_children_keeps a d Children.none k = absurd k
  sort_children_keeps a d (child c cs) (inl k) =
      place_keeps a d (sort_trace c) (sort_children cs) (inl (sort_keeps a d c k))
  sort_children_keeps a d (child c cs) (inr k) =
      place_keeps a d (sort_trace c) (sort_children cs) (inr (sort_children_keeps a d cs k))

mutual
  unfolding collect_leaf_addrs Kept

  pub Kept-leaf :
      (a : Addr) (d : ℕ) (n : ProcessNode) → Kept a d n → has_addr a (collect_leaf_addrs n) ≡ true
  Kept-leaf a d (process_node info Children.none) k = ground (arith, k.0, addr_eq_refl a)
  Kept-leaf a d (process_node info (child c cs)) k = KeptIn-leaf a (suc d) (child c cs) k

  KeptIn-leaf :
      (a : Addr) (d : ℕ) (cs : Children) → KeptIn a d cs → has_addr a (collect_children cs) ≡ true
  KeptIn-leaf a d Children.none k = absurd k
  KeptIn-leaf a d (child c cs) (inl k) =
      rw (any-append (λ (s : Addr). addr_eq s a) (collect_leaf_addrs c) (collect_children cs))
        (rw (Kept-leaf a d c k) refl)
  KeptIn-leaf a d (child c cs) (inr k) =
      rw (any-append (λ (s : Addr). addr_eq s a) (collect_leaf_addrs c) (collect_children cs))
        (ground (arith, KeptIn-leaf a d cs k))

all-place_recorded :
    (p : RecordedOutput → Bool) (r : RecordedOutput) (rs : List RecordedOutput)
    → all p (place_recorded r rs) ≡ (p r && all p rs)
unfolding place_recorded
all-place_recorded p r [] = refl
all-place_recorded p r (s ∷ rs) = ground (arith, all-place_recorded p r rs)

-- A sort by insertion keeps what holds of all.
pub all-sort_recorded :
    (p : RecordedOutput → Bool) (rs : List RecordedOutput) → all p (sort_recorded rs) ≡ all p rs
unfolding sort_recorded
all-sort_recorded p [] = refl
all-sort_recorded p (r ∷ rs) =
    ground (arith, all-place_recorded p r (sort_recorded rs), all-sort_recorded p rs)
