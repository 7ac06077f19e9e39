-- ===== src/Topology/Rank.antt =====
-- An order of the nodes in which every branch leads to an earlier node, and the rank that it gives.
use jesterky.Prelude.{
  eq_iff, inr, inl, suc, ◌<◌, [], str_eq, contains_key, Bool-cases, arith, length, true,
  if◌then◌else◌, ◌∷◌, ◌≤◌, ◌≡◌, ℕ, List, String,
}
use jesterky.Topology.Graph.{edges_of, mem, EdgeMap}

-- No branch from a node of the graph to one leads up.
abbrev pub Descends : EdgeMap → (String → ℕ) → Type 0
Descends graph rank =
    (id next : String)
    → mem next (edges_of id graph) ≡ true
    → contains_key next graph ≡ true
    → rank next < rank id

-- The nodes that `id` branches to stand in the list.
abbrev pub Closed : EdgeMap → List String → List String → Type 0
Closed graph edges order =
    (next : String) → mem next edges ≡ true → contains_key next graph ≡ true → mem next order ≡ true

-- The last node to end stands first.
abbrev pub Ordered : EdgeMap → List String → Type 0
Ordered graph [] = Unit
Ordered graph (id ∷ order) = Closed graph (edges_of id graph) order × Ordered graph order

pub rank_in : List String → String → ℕ
rank_in [] id = 0
rank_in (x ∷ order) id =
    if mem id order then rank_in order id else if str_eq x id then suc (length order) else 0

rank_in-le : (order : List String) (id : String) → rank_in order id ≤ length order
unfolding rank_in
rank_in-le [] id = omega arith
rank_in-le (x ∷ order) id = ground (arith, rank_in-le order id)

pub rank_in-lt :
    (graph : EdgeMap) (order : List String) (id next : String)
    → Ordered graph order
    → mem id order ≡ true
    → mem next (edges_of id graph) ≡ true
    → contains_key next graph ≡ true
    → (mem next order ≡ true) × (rank_in order next < rank_in order id)
unfolding rank_in
rank_in-lt graph [] id next o m e k = cc
rank_in-lt graph (x ∷ order) id next o m e k = elim (Bool-cases (mem id order)) [
  | inl deeper ↦
      let (within, below) = rank_in-lt graph order id next o.1 deeper e k in
      rw (within, deeper) (ground (arith, within), below)
  | inr top ↦
      let same : x ≡ id = ground (arith, eq_iff x id, m, top) in
      let within = o.0 next (rw (← same) at e) k in
      ground (arith, within, top, m, rank_in-le order next)
]
