-- ===== src/Topology/Search.antt =====
-- `visit` ends: it nests at most once for each node of the graph.

-- How many of the ids have no mark.
use jesterky.Topology.Defs.{Diagnostic}
use jesterky.Topology.Graph.{
  done, done, visiting, edges_of, report_cycle, visit_marked, visit, visit_all, visit_edges, Visit,
  mem, Mark, EdgeMap,
}
use jesterky.Prelude.{
  ap, All-map, length, zero, ◌∙◌, eq_refl, eq_iff, inr, Option-cases, inl, str_eq, Bool-cases, suc,
  ◌+◌, refl, if◌then◌else◌, [], ◌<◌, lookup-insert, none, ◌∷◌, lookup, contains_key, All, arith,
  true, some, ◌≡◌, is_none, ℕ, keys, ◌≤◌, insert, List, String, Dict, Option,
}

abbrev unmarked : List String → Dict Mark → ℕ
unmarked [] marks = 0
unmarked (id ∷ ids) marks = (if is_none (lookup id marks) then 1 else 0) + unmarked ids marks

-- Marks are never taken away.
abbrev Keeps : Dict Mark → Dict Mark → Type 0
Keeps marks marks' =
    (k : String) → is_none (lookup k marks') ≡ true → is_none (lookup k marks) ≡ true

unmarked-le : (ids : List String) (m m' : Dict Mark) → Keeps m m' → unmarked ids m' ≤ unmarked ids m
unmarked-le [] m m' h = omega arith
unmarked-le (id ∷ ids) m m' h = ground (arith, h id, unmarked-le ids m m' h)

Keeps-insert : (id : String) (mark : Mark) (m : Dict Mark) → Keeps m (insert id mark m)
Keeps-insert id mark m k h = ground (arith, h, lookup-insert id k mark m)

unmarked-insert :
    (ids : List String) (id : String) (mark : Mark) (m : Dict Mark)
    → mem id ids ≡ true
    → lookup id m ≡ none
    → unmarked ids (insert id mark m) < unmarked ids m
unmarked-insert [] id mark m h e = cc
unmarked-insert (x ∷ ids) id mark m h e = elim (Bool-cases (str_eq x id)) [
  | inl same ↦ ground (
    arith,
    same,
    e,
    eq_iff x id,
    eq_refl id,
    lookup-insert id x mark m,
    unmarked-le ids m (insert id mark m) (Keeps-insert id mark m),
  )
  | inr other ↦ ground (
    arith,
    other,
    h,
    e,
    eq_iff x id,
    eq_iff id x,
    lookup-insert id x mark m,
    unmarked-insert ids id mark m,
  )
]

mem-keys : (id : String) (graph : EdgeMap) → mem id (keys graph) ≡ contains_key id graph
mem-keys id [] = refl
mem-keys id ((k, edges) ∷ graph) = ground (arith, mem-keys id graph)

-- A search that ends, having kept the marks.
abbrev Ends : Option Visit → Visit → Type 0
Ends o v = (w : Visit) × (o ≡ some w) × Keeps v.0 w.0

module _ (graph : EdgeMap) where
  edges_end :
      (call : String → Visit → Option Visit) (n : ℕ)
      → ((id : String) (v : Visit)
          → contains_key id graph ≡ true
          → unmarked (keys graph) v.0 < n
          → Ends (call id v) v)
      → (edges : List String) (v : Visit) → unmarked (keys graph) v.0 < n
      → Ends (visit_edges graph call edges v) v
  unfolding visit_edges
  edges_end call n ends [] v h = (v, refl, λ k e. e)
  edges_end call n ends (next ∷ edges) v h = elim (Bool-cases (contains_key next graph)) [
    | inl known ↦
        let (w, e, kept) = ends next v known h in
        let (u, e', kept') =
          edges_end call n ends edges w (omega (arith, unmarked-le (keys graph) v.0 w.0 kept, h)) in
        (u, rw (known, visit_edges, e) e', λ k free. kept k (kept' k free))
    | inr other ↦ rw (other, visit_edges) (edges_end call n ends edges v h)
  ]

  pub visit-Ends :
      (fuel : ℕ) (id : String) (v : Visit)
      → contains_key id graph ≡ true
      → unmarked (keys graph) v.0 < fuel
      → Ends (visit graph fuel id v) v
  unfolding visit visit_marked
  visit-Ends zero id v known h = absurd (omega arith)
  visit-Ends (suc fuel) id v known h = elim (Option-cases (lookup id v.0)) [
    | inl fresh ↦
        let (w, e, kept) =
          edges_end (visit graph fuel) fuel
            (λ next u known' less. visit-Ends fuel next u known' less) (edges_of id graph)
            (insert id visiting v.0, v.1)
            (omega (
              arith,
              h,
              unmarked-insert (keys graph) id visiting v.0 (mem-keys id graph ∙ known) fresh,
            )) in
        (
          (insert id done w.0, w.1),
          rw (fresh, e) refl,
          λ k free. Keeps-insert id visiting v.0 k (kept k (Keeps-insert id done w.0 k free)),
        )
    | inr (m, e) ↦ marked_ends m id v e
  ]
    where
      marked_ends :
          (m : Mark) (id : String) (v : Visit)
          → lookup id v.0 ≡ some m
          → Ends (visit_marked graph (visit graph fuel) id (lookup id v.0) v) v
      marked_ends done id v e = (v, rw e refl, λ k free. free)
      marked_ends visiting id v e = ((v.0, report_cycle id v.1), rw e refl, λ k free. free)

  All-end :
      (fuel : ℕ) (ids : List String) (v : Visit)
      → All (λ (id : String). contains_key id graph ≡ true) ids
      → unmarked (keys graph) v.0 < fuel
      → Ends (visit_all graph fuel ids v) v
  unfolding visit_all
  All-end fuel [] v known h = (v, refl, λ k free. free)
  All-end fuel (id ∷ ids) v known h =
      let (w, e, kept) = visit-Ends fuel id v known.0 h in
      let (u, e', kept') =
        All-end fuel ids w known.1 (omega (arith, h, unmarked-le (keys graph) v.0 w.0 kept)) in
      (u, rw e e', λ k free. kept k (kept' k free))

unmarked_all : (ids : List String) → unmarked ids [] ≡ length ids
unmarked_all [] = refl
unmarked_all (id ∷ ids) = omega (arith, unmarked_all ids)

length-keys : (graph : EdgeMap) → length (keys graph) ≡ length graph
length-keys [] = refl
length-keys ((k, edges) ∷ graph) = ap suc (length-keys graph)

pub keys_known :
    (graph : EdgeMap) → All (λ (id : String). contains_key id graph ≡ true) (keys graph)
keys_known [] = tt
keys_known ((k, edges) ∷ graph) = (
  ground (arith, eq_refl k),
  All-map _ _ (keys graph) (λ id h. ground (arith, h)) (keys_known graph),
)

-- The fuel of `detect_cycles` is enough for every graph.
pub visit_all_ends :
    (graph : EdgeMap) (ds : List Diagnostic)
    → (v : Visit) × (visit_all graph (suc (length graph)) (keys graph) ([], ds) ≡ some v)
visit_all_ends graph ds =
    let (v, e, kept) =
      All-end graph (suc (length graph)) (keys graph) ([], ds) (keys_known graph)
        (omega (arith, unmarked_all (keys graph), length-keys graph)) in
    (v, e)
