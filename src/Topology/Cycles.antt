-- ===== src/Topology/Cycles.antt =====
-- `detect_cycles` finds a cycle exactly if there is one.

use jesterky.Topology.Search.{visit_all_ends}
use jesterky.Topology.Defs.{Diagnostic}
use jesterky.Topology.Rank.{rank_in-lt, rank_in, Descends, Ordered}
use jesterky.Topology.Order.{All-Ordered, mark_done-some, and_visit-some, visit_inj, VisitCall}
use jesterky.Prelude.{
  length, ◌↔◌, none, false, subst, refl, zero, [], suc, inr, ◌∙◌, Option, eq_iff, any,
  lookup-insert, eq_refl, keys, str_eq, Option-cases, inl, insert, All, Bool-cases, ◌∷◌, arith, sym,
  ap, ◌≤◌, contains_key, true, List, ◌<◌, some, lookup, Dict, ◌≡◌, ℕ, String,
}
use jesterky.Topology.Graph.{
  is_error, done, edges_of, detect_cycles, visit, visit_all, visit_marked, mem, visiting, Mark,
  visit_edges, EdgeMap, Visit,
}

abbrev OpenAbove : (String → ℕ) → ℕ → Dict Mark → Type 0
OpenAbove rank n marks = (k : String) → lookup k marks ≡ some visiting → n < rank k

-- No diagnostic is added, and no visit is left open.
abbrev Quiet : Visit → Visit → Type 0
Quiet v w =
    (w.1 ≡ v.1) × ((k : String) → lookup k w.0 ≡ some visiting → lookup k v.0 ≡ some visiting)

-- While `id` is being visited, what is open is `id` and what was open before.
opened_above :
    (rank : String → ℕ) (id k : String) (marks : Dict Mark)
    → (lookup k marks ≡ some visiting → rank id < rank k)
    → lookup k (insert id visiting marks) ≡ some visiting
    → rank id ≤ rank k
opened_above rank id k marks above f = elim (Bool-cases (str_eq id k)) [
  | inl same ↦ let e : id ≡ k = (eq_iff id k).0 same in rw e (omega arith)
  | inr other ↦ omega (arith, above (rw other at (sym (lookup-insert id k visiting marks) ∙ f)))
]

reopened :
    (id k : String) (inner marks : Dict Mark)
    → (lookup k inner ≡ some visiting → lookup k (insert id visiting marks) ≡ some visiting)
    → lookup k (insert id done inner) ≡ some visiting
    → lookup k marks ≡ some visiting
reopened id k inner marks closed f =
    ground (arith, f, closed, lookup-insert id k done inner, lookup-insert id k visiting marks)

module _ (graph : EdgeMap) (rank : String → ℕ) where
  abbrev StaysQuiet : VisitCall → Type 0
  StaysQuiet call =
      (id : String) (v w : Visit) → call id v ≡ some w → OpenAbove rank (rank id) v.0 → Quiet v w

  edges_stay :
      (call : VisitCall)
      → StaysQuiet call
      → (n : ℕ) (edges : List String) (v w : Visit)
      → ((next : String) → mem next edges ≡ true → contains_key next graph ≡ true → rank next < n)
      → visit_edges graph call edges v ≡ some w
      → ((k : String) → lookup k v.0 ≡ some visiting → n ≤ rank k)
      → Quiet v w
  unfolding visit_edges
  edges_stay call stays n [] v w below e open_ =
      let same = visit_inj v w e in
      (ap (λ (x : Visit). x.1) (sym same), λ k f. ground (arith, same, f))
  edges_stay call stays n (x ∷ edges) v w below e open_ = elim (Bool-cases (contains_key x graph)) [
    | inl known ↦
        let (u, first, rest) = and_visit-some (call x v) _ w (rw (known, visit_edges) at e) in
        let less = below x (ground (arith, eq_refl x)) known in
        let (same, closed) = stays x v u first (λ k f. omega (arith, open_ k f, less)) in
        let (same', closed') =
          edges_stay call stays n edges u w (λ next m k. below next (ground (arith, m)) k) rest
            (λ k f. open_ k (closed k f)) in
        (same' ∙ same, λ k f. closed k (closed' k f))
    | inr other ↦
        edges_stay call stays n edges v w (λ next m k. below next (ground (arith, m)) k)
          (rw (other, visit_edges) at e) open_
  ]

  marked_stays :
      (call : VisitCall)
      → StaysQuiet call
      → Descends graph rank
      → (id : String) (m : Option Mark) (v w : Visit) → lookup id v.0 ≡ m
      → visit_marked graph call id m v ≡ some w
      → OpenAbove rank (rank id) v.0
      → Quiet v w
  unfolding visit_marked
  marked_stays call stays down id (some done) v w l e open_ =
      let same = visit_inj v w e in
      (ap (λ (x : Visit). x.1) (sym same), λ k f. ground (arith, same, f))
  marked_stays call stays down id (some visiting) v w l e open_ = absurd (omega (arith, open_ id l))
  marked_stays call stays down id none v w l e open_ =
      let (u, found, same) = mark_done-some graph id _ w e in
      let (quiet, closed) =
        edges_stay call stays (rank id) (edges_of id graph) (insert id visiting v.0, v.1) u
          (λ next m k. down id next m k) found (λ k f. opened_above rank id k v.0 (open_ k) f) in
      (
        sym (ap (λ (x : Visit). x.1) same) ∙ quiet,
        λ k f.
            reopened id k u.0 v.0 (closed k)
              (subst (λ (x : Visit). lookup k x.0 ≡ some visiting) (sym same) f),
      )

  visit_stays : (fuel : ℕ) → Descends graph rank → StaysQuiet (visit graph fuel)
  unfolding visit
  visit_stays zero down id v w e open_ = cc
  visit_stays (suc fuel) down id v w e open_ =
      marked_stays (visit graph fuel) (visit_stays fuel down) down id (lookup id v.0) v w refl e
        open_

  all_stay :
      (fuel : ℕ)
      → Descends graph rank
      → (ids : List String) (v w : Visit) → visit_all graph fuel ids v ≡ some w
      → ((k : String) → lookup k v.0 ≡ some visiting → ⊥)
      → w.1 ≡ v.1
  unfolding visit_all
  all_stay fuel down [] v w e closed = ap (λ (x : Visit). x.1) (sym (visit_inj v w e))
  all_stay fuel down (id ∷ ids) v w e closed =
      let (u, first, rest) = and_visit-some (visit graph fuel id v) _ w e in
      let (same, left) = visit_stays fuel down id v u first (λ k f. absurd (closed k f)) in
      all_stay fuel down ids u w rest (λ k f. closed k (left k f)) ∙ same

at_key :
    (graph : EdgeMap) (order : List String) (id : String)
    → All (λ (k : String). mem k order ≡ true) (keys graph)
    → contains_key id graph ≡ true
    → mem id order ≡ true
at_key [] order id h k = cc
at_key ((x, edges) ∷ graph) order id h k = elim (Bool-cases (str_eq x id)) [
  | inl same ↦ ground (arith, h.0, eq_iff x id, same)
  | inr other ↦ at_key graph order id h.1 (ground (arith, k, other))
]

-- A node that branches is a node of the graph.
branching_known :
    (graph : EdgeMap) (id next : String)
    → mem next (edges_of id graph) ≡ true
    → contains_key id graph ≡ true
branching_known graph id next m = elim (Option-cases (lookup id graph)) [
  | inl missing ↦ absurd (cc (rw missing at m))
  | inr (edges, e) ↦ rw e refl
]

Ordered-ranks :
    (graph : EdgeMap) (order : List String)
    → Ordered graph order
    → All (λ (k : String). mem k order ≡ true) (keys graph)
    → Descends graph (rank_in order)
Ordered-ranks graph order o all_ id next m k =
    (rank_in-lt graph order id next o (at_key graph order id all_ (branching_known graph id next m))
      m k).1

-- `detect_cycles` ends on every graph. If the diagnostics before it have no error, those after it
-- have none exactly if the nodes can be ranked so that every branch leads down, that is, if no
-- chain of branches leads back to its start; and then it adds nothing.
pub detect_cycles_lem :
    (graph : EdgeMap) (ds : List Diagnostic)
    → any is_error ds ≡ false
    → (ds' : List Diagnostic) × (detect_cycles graph ds ≡ some ds')
      × ((any is_error ds' ≡ false) ↔ ((rank : String → ℕ) × Descends graph rank))
      × ((rank : String → ℕ) → Descends graph rank → ds' ≡ ds)
unfolding detect_cycles
detect_cycles_lem graph ds clean =
    let (v, e) = visit_all_ends graph ds in
    let fuel = suc (length graph) in
    let quiet : (rank : String → ℕ) → Descends graph rank → v.1 ≡ ds =
      λ rank down. all_stay graph rank fuel down (keys graph) ([], ds) v e (λ k f. cc) in
    (
      v.1,
      rw e refl,
      (
        λ calm.
            let (order, (o, d, sub), all_) =
              All-Ordered graph fuel (keys graph) ([], ds) v [] e calm tt (λ k f. cc) in
            (rank_in order, Ordered-ranks graph order o all_),
        λ ranked. rw (quiet ranked.0 ranked.1) clean,
      ),
      quiet,
    )
