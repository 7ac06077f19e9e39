-- ===== src/Topology/Order.antt =====
-- A search that reports nothing puts the nodes into such an order: the one in which their visits
-- end.
use jesterky.Topology.Rank.{Closed, Ordered}
use jesterky.Topology.Defs.{Diagnostic}
use jesterky.Prelude.{
  All, sym, subst, eq_refl, lookup-insert, zero, lookup, false, any-append, Dict, ◌∙◌, eq_iff, refl,
  inr, inl, suc, insert, none, [], some, contains_key, Bool-cases, arith, any, true, ◌∷◌, Bool, ◌≡◌,
  ℕ, List, Option, String,
}
use jesterky.Topology.Graph.{
  visit_all, visiting, Mark, visit_marked, visit, visit_edges, done, is_error, mark_done, edges_of,
  and_visit, Visit, is_reported, mem, EdgeMap, report_cycle,
}

abbrev pub has_error : List Diagnostic → Bool
has_error ds = any is_error ds

reported_error :
    (id : String) (ds : List Diagnostic) → is_reported id ds ≡ true → has_error ds ≡ true
reported_error id [] h = cc
reported_error id (d ∷ ds) h = ground (arith, h, reported_error id ds)

report_cycle_error : (id : String) (ds : List Diagnostic) → has_error (report_cycle id ds) ≡ true
unfolding report_cycle
report_cycle_error id ds = elim (Bool-cases (is_reported id ds)) [
  | inl old ↦ rw old (reported_error id ds old)
  | inr new ↦ rw new (any-append is_error ds _ ∙ ground arith)
]

pub and_visit-some :
    (o : Option Visit) (f : Visit → Option Visit) (w : Visit)
    → and_visit o f ≡ some w
    → (u : Visit) × (o ≡ some u) × (f u ≡ some w)
and_visit-some none f w h = cc
and_visit-some (some u) f w h = (u, refl, h)

pub mark_done-some :
    (graph : EdgeMap) (id : String) (o : Option Visit) (w : Visit)
    → mark_done graph id o ≡ some w
    → (u : Visit) × (o ≡ some u) × ((insert id done u.0, u.1) ≡ w)
mark_done-some graph id none w h = cc
mark_done-some graph id (some u) w h = (u, refl, ground (arith, h))

abbrev pub IsDoneIn : Dict Mark → List String → Type 0
IsDoneIn marks order = (k : String) → lookup k marks ≡ some done → mem k order ≡ true

-- What a search without an error leaves behind: an order that goes on from the one before.
abbrev pub Grows : EdgeMap → Visit → List String → List String → Type 0
Grows graph w order order' =
    Ordered graph order'
    × IsDoneIn w.0 order'
    × ((k : String) → mem k order ≡ true → mem k order' ≡ true)

-- The recursive call, as the lemmas on its callers take it.
abbrev pub VisitCall : Type 0
VisitCall = String → Visit → Option Visit

abbrev IsQuiet : VisitCall → Type 0
IsQuiet call =
    (id : String) (v w : Visit) → call id v ≡ some w → has_error w.1 ≡ false → has_error v.1 ≡ false

abbrev IsOrdered : EdgeMap → VisitCall → Type 0
IsOrdered graph call =
    (id : String) (v w : Visit) (order : List String)
    → call id v ≡ some w
    → has_error w.1 ≡ false
    → Ordered graph order
    → IsDoneIn v.0 order
    → (order' : List String) × Grows graph w order order' × (mem id order' ≡ true)

pub visit_inj : (v w : Visit) → some v ≡ some w → v ≡ w
visit_inj v w e = cc

reported_not :
    (id : String) (v w : Visit) → some (v.0, report_cycle id v.1) ≡ some w → has_error w.1 ≡ true
reported_not id v w e =
    subst (λ (x : Visit). has_error x.1 ≡ true) (visit_inj (v.0, report_cycle id v.1) w e)
      (report_cycle_error id v.1)

IsDoneIn-insert :
    (id k : String) (marks : Dict Mark) (order : List String)
    → IsDoneIn marks order
    → lookup k (insert id done marks) ≡ some done
    → mem k (id ∷ order) ≡ true
IsDoneIn-insert id k marks order d h = ground (arith, h, lookup-insert id k done marks, d k)

module _ (graph : EdgeMap) where
  edges_quiet :
      (call : VisitCall)
      → IsQuiet call
      → (edges : List String) (v w : Visit) → visit_edges graph call edges v ≡ some w
      → has_error w.1 ≡ false
      → has_error v.1 ≡ false
  unfolding visit_edges
  edges_quiet call quiet [] v w e h = ground (arith, e, h)
  edges_quiet call quiet (next ∷ edges) v w e h = elim (Bool-cases (contains_key next graph)) [
    | inl known ↦
        let (u, first, rest) = and_visit-some (call next v) _ w (rw (known, visit_edges) at e) in
        quiet next v u first (edges_quiet call quiet edges u w rest h)
    | inr other ↦ edges_quiet call quiet edges v w (rw (other, visit_edges) at e) h
  ]

  marked_quiet :
      (call : VisitCall)
      → IsQuiet call
      → (id : String) (m : Option Mark) (v w : Visit) → visit_marked graph call id m v ≡ some w
      → has_error w.1 ≡ false
      → has_error v.1 ≡ false
  unfolding visit_marked
  marked_quiet call quiet id (some done) v w e h = ground (arith, e, h)
  marked_quiet call quiet id (some visiting) v w e h = let err = reported_not id v w e in cc
  marked_quiet call quiet id none v w e h =
      let (u, found, same) = mark_done-some graph id _ w e in
      edges_quiet call quiet (edges_of id graph) (insert id visiting v.0, v.1) u found
        (ground (arith, same, h))

  -- An error stays.
  visit-IsQuiet : (fuel : ℕ) → IsQuiet (visit graph fuel)
  unfolding visit
  visit-IsQuiet zero id v w e h = cc
  visit-IsQuiet (suc fuel) id v w e h =
      marked_quiet (visit graph fuel) (visit-IsQuiet fuel) id (lookup id v.0) v w e h

  -- The edges of a node end up in the order, and the order goes on.
  edges-Ordered :
      (call : VisitCall)
      → IsQuiet call
      → IsOrdered graph call
      → (edges : List String) (v w : Visit) (order : List String)
      → visit_edges graph call edges v ≡ some w
      → has_error w.1 ≡ false
      → Ordered graph order
      → IsDoneIn v.0 order
      → (order' : List String) × Grows graph w order order' × Closed graph edges order'
  unfolding visit_edges
  edges-Ordered call quiet ordered [] v w order e h o d =
      (order, (o, λ k f. d k (ground (arith, e, f)), λ k m. m), λ next m k. cc)
  edges-Ordered call quiet ordered (x ∷ edges) v w order e h o d =
      elim (Bool-cases (contains_key x graph)) [
        | inl known ↦
            let (u, first, rest) = and_visit-some (call x v) _ w (rw (known, visit_edges) at e) in
            let calm = edges_quiet call quiet edges u w rest h in
            let (order1, (o1, d1, sub1), in1) = ordered x v u order first calm o d in
            let (order2, (o2, d2, sub2), closed) =
              edges-Ordered call quiet ordered edges u w order1 rest h o1 d1 in
            (
              order2,
              (o2, d2, λ k m. sub2 k (sub1 k m)),
              λ next m k. ground (arith, m, eq_iff x next, sub2 x in1, closed next),
            )
        | inr other ↦
            let (order', grows, closed) =
              edges-Ordered call quiet ordered edges v w order (rw (other, visit_edges) at e) h o
                d in
            (order', grows, λ next m k. ground (arith, m, k, other, eq_iff x next, closed next))
      ]

  marked-Ordered :
      (call : VisitCall)
      → IsQuiet call
      → IsOrdered graph call
      → (id : String) (m : Option Mark) (v w : Visit) (order : List String) → lookup id v.0 ≡ m
      → visit_marked graph call id m v ≡ some w
      → has_error w.1 ≡ false
      → Ordered graph order
      → IsDoneIn v.0 order
      → (order' : List String) × Grows graph w order order' × (mem id order' ≡ true)
  unfolding visit_marked
  marked-Ordered call quiet ordered id (some done) v w order l e h o d =
      (order, (o, λ k f. d k (ground (arith, e, f)), λ k m. m), d id l)
  marked-Ordered call quiet ordered id (some visiting) v w order l e h o d =
      let err = reported_not id v w e in absurd (cc)
  marked-Ordered call quiet ordered id none v w order l e h o d =
      let (u, found, same) = mark_done-some graph id _ w e in
      let (order', (o', d', sub), closed) =
        edges-Ordered call quiet ordered (edges_of id graph) (insert id visiting v.0, v.1) u order
          found (ground (arith, same, h)) o
          (λ k f. d k (ground (arith, f, lookup-insert id k visiting v.0))) in
      (
        id ∷ order',
        (
          (closed, o'),
          λ k f.
              IsDoneIn-insert id k u.0 order' d'
                (subst (λ (x : Visit). lookup k x.0 ≡ some done) (sym same) f),
          λ k m. ground (arith, sub k m),
        ),
        ground (arith, eq_refl id),
      )

  visit-IsOrdered : (fuel : ℕ) → IsOrdered graph (visit graph fuel)
  unfolding visit
  visit-IsOrdered zero id v w order e h o d = cc
  visit-IsOrdered (suc fuel) id v w order e h o d =
      marked-Ordered (visit graph fuel) (visit-IsQuiet fuel) (visit-IsOrdered fuel) id
        (lookup id v.0) v w order refl e h o d

  all_quiet :
      (fuel : ℕ) (ids : List String) (v w : Visit)
      → visit_all graph fuel ids v ≡ some w
      → has_error w.1 ≡ false
      → has_error v.1 ≡ false
  unfolding visit_all
  all_quiet fuel [] v w e h = ground (arith, e, h)
  all_quiet fuel (id ∷ ids) v w e h =
      let (u, first, rest) = and_visit-some (visit graph fuel id v) _ w e in
      visit-IsQuiet fuel id v u first (all_quiet fuel ids u w rest h)

  pub All-Ordered :
      (fuel : ℕ) (ids : List String) (v w : Visit) (order : List String)
      → visit_all graph fuel ids v ≡ some w
      → has_error w.1 ≡ false
      → Ordered graph order
      → IsDoneIn v.0 order
      → (order' : List String) × Grows graph w order order'
        × All (λ (id : String). mem id order' ≡ true) ids
  unfolding visit_all
  All-Ordered fuel [] v w order e h o d =
      (order, (o, λ k f. d k (ground (arith, e, f)), λ k m. m), tt)
  All-Ordered fuel (id ∷ ids) v w order e h o d =
      let (u, first, rest) = and_visit-some (visit graph fuel id v) _ w e in
      let (order1, (o1, d1, sub1), in1) =
        visit-IsOrdered fuel id v u order first (all_quiet fuel ids u w rest h) o d in
      let (order2, (o2, d2, sub2), in2) = All-Ordered fuel ids u w order1 rest h o1 d1 in
      (order2, (o2, d2, λ k m. sub2 k (sub1 k m)), (sub2 id in1, in2))
