-- ===== src/Event/Order.antt =====
-- The derived order of addresses: that it is total, and that it is the documented one.
use Prim.Native.Nat.{compare, Ordering}
use Prim.Native.String.{compare as compare_text}
use jesterky.Prelude.{
  ◌<◌, ◌≢◌, ◌↔◌, ◌⊎◌, inl, inr, sym, ◌∙◌, ℕ, ◌≡◌, refl, ap, [], ◌∷◌, String, arith,
}
use jesterky.Event.Defs.{
  PathSeg, node, index, NodePath, Addr, seg_cmp, path_cmp, addr_cmp, ◌then_by◌,
}
use jesterky.Event.Compare.{flip, IsOrder, nat-IsOrder, text-IsOrder}

seg_self : (s : PathSeg) → seg_cmp s s ≡ Ordering.eq
seg_self (node s) = (text-IsOrder).self s
seg_self (index i) = (nat-IsOrder).self i

seg_equal : (s t : PathSeg) → seg_cmp s t ≡ Ordering.eq → s ≡ t
seg_equal (node s) (node t) h = ap node ((text-IsOrder).equal s t h)
seg_equal (node s) (index j) h = cc
seg_equal (index i) (node t) h = cc
seg_equal (index i) (index j) h = ap index ((nat-IsOrder).equal i j h)

seg_turned : (s t : PathSeg) → seg_cmp t s ≡ flip (seg_cmp s t)
seg_turned (node s) (node t) = (text-IsOrder).turned s t
seg_turned (node s) (index j) = refl
seg_turned (index i) (node t) = refl
seg_turned (index i) (index j) = (nat-IsOrder).turned i j

seg_trans :
    (s t u : PathSeg)
    → seg_cmp s t ≡ Ordering.lt
    → seg_cmp t u ≡ Ordering.lt
    → seg_cmp s u ≡ Ordering.lt
seg_trans (node s) (node t) (node u) h k = (text-IsOrder).trans s t u h k
seg_trans (index i) (index j) (index l) h k = (nat-IsOrder).trans i j l h k
seg_trans (node s) (index j) (node u) h k = cc
seg_trans (index i) (node t) u h k = cc
seg_trans (index i) (index j) (node u) h k = cc
seg_trans (node s) t (index j) h k = refl

seg-IsOrder : IsOrder seg_cmp
seg-IsOrder = record { self = seg_self; equal = seg_equal; turned = seg_turned; trans = seg_trans }

module _ {A B : Type 0} (ca : A → A → Ordering) (cb : B → B → Ordering) where
  abbrev pair_cmp : A × B → A × B → Ordering
  pair_cmp p q = ca p.0 q.0 then_by cb p.1 q.1

  pair-IsOrder : IsOrder ca → IsOrder cb → IsOrder pair_cmp
  pair-IsOrder oa ob = record {
    self = λ p. ground (arith, oa.self p.0, ob.self p.1);
    equal = λ p q h. ground (arith, oa.equal p.0 q.0, ob.equal p.1 q.1);
    turned = λ p q. ground (arith, oa.turned p.0 q.0, ob.turned p.1 q.1);
    trans = λ p q r h k.
        ground
          (arith, oa.trans p.0 q.0 r.0, oa.equal p.0 q.0, oa.equal q.0 r.0, ob.trans p.1 q.1 r.1);
  }

path_self : (p : NodePath) → path_cmp p p ≡ Ordering.eq
unfolding path_cmp
path_self [] = refl
path_self (s ∷ p) = ground (arith, seg_self s, path_self p)

path_equal : (p q : NodePath) → path_cmp p q ≡ Ordering.eq → p ≡ q
unfolding path_cmp
path_equal [] [] h = refl
path_equal [] (t ∷ q) h = cc
path_equal (s ∷ p) [] h = cc
path_equal (s ∷ p) (t ∷ q) h = ground (arith, seg_equal s t, path_equal p q)

path_turned : (p q : NodePath) → path_cmp q p ≡ flip (path_cmp p q)
unfolding path_cmp
path_turned [] [] = refl
path_turned [] (t ∷ q) = refl
path_turned (s ∷ p) [] = refl
path_turned (s ∷ p) (t ∷ q) = ground (arith, seg_turned s t, path_turned p q)

path_trans :
    (p q r : NodePath)
    → path_cmp p q ≡ Ordering.lt
    → path_cmp q r ≡ Ordering.lt
    → path_cmp p r ≡ Ordering.lt
unfolding path_cmp
path_trans [] [] r h k = cc
path_trans (s ∷ p) [] r h k = cc
path_trans [] (t ∷ q) [] h k = cc
path_trans (s ∷ p) (t ∷ q) [] h k = cc
path_trans [] (t ∷ q) (u ∷ r) h k = refl
path_trans (s ∷ p) (t ∷ q) (u ∷ r) h k =
    ground (arith, seg_trans s t u, seg_equal s t, seg_equal t u, path_trans p q r)

path-IsOrder : IsOrder path_cmp
path-IsOrder = record {
  self = path_self;
  equal = path_equal;
  turned = path_turned;
  trans = path_trans;
}

abbrev parts : Addr → String × (NodePath × (ℕ × ℕ))
parts a = (a.run_id, (a.node_path, (a.iteration, a.local_seq)))

parts-IsOrder : IsOrder (pair_cmp compare_text (pair_cmp path_cmp (pair_cmp compare compare)))
parts-IsOrder =
    pair-IsOrder _ _ text-IsOrder
      (pair-IsOrder _ _ path-IsOrder (pair-IsOrder _ _ nat-IsOrder nat-IsOrder))

-- One step of a path before another: names come before indices, names in the order of texts and
-- indices in that of numbers.
abbrev pub SegBefore : PathSeg → PathSeg → Type 0
SegBefore (node s) (node t) = compare_text s t ≡ Ordering.lt
SegBefore (node s) (index j) = Unit
SegBefore (index i) (node t) = ⊥
SegBefore (index i) (index j) = i < j

-- A path before another: it is a proper prefix, or the first steps that differ decide.
abbrev pub PathBefore : NodePath → NodePath → Type 0
PathBefore p [] = ⊥
PathBefore [] (t ∷ q) = Unit
PathBefore (s ∷ p) (t ∷ q) = SegBefore s t ⊎ ((s ≡ t) × PathBefore p q)

-- The documented order: the place in the tree first, then the iteration, then the sequence there.
abbrev pub PlaceBefore : Addr → Addr → Type 0
PlaceBefore a b =
    PathBefore a.node_path b.node_path
    ⊎ ((a.node_path ≡ b.node_path)
        × ((a.iteration < b.iteration)
            ⊎ ((a.iteration ≡ b.iteration) × (a.local_seq < b.local_seq))))

abbrev LtIff : Ordering → Type 0 → Type 0
LtIff o P = (o ≡ Ordering.lt) ↔ P

seg_lt : (s t : PathSeg) → LtIff (seg_cmp s t) (SegBefore s t)
seg_lt (node s) (node t) = (λ h. h, λ h. h)
seg_lt (node s) (index j) = (λ h. tt, λ h. refl)
seg_lt (index i) (node t) = (λ h. cc, λ h. absurd h)
seg_lt (index i) (index j) = (λ h. ground arith, λ h. ground arith)

-- `lt` of a lexicographic comparison.
then_lt :
    (o o' : Ordering) (P E Q : Type 0)
    → LtIff o P
    → (o ≡ Ordering.eq) ↔ E
    → LtIff o' Q
    → LtIff (o then_by o') (P ⊎ (E × Q))
then_lt Ordering.lt o' P E Q h e k = (λ l. inl (h.0 refl), λ l. refl)
then_lt Ordering.eq o' P E Q h e k =
    (λ l. inr (e.0 refl, k.0 l), λ l. elim l [ inl p ↦ cc (h.1 p) | inr (same, q) ↦ k.1 q ])
then_lt Ordering.gt o' P E Q h e k =
    (λ l. cc, λ l. elim l [ inl p ↦ cc (h.1 p) | inr (same, q) ↦ cc (e.1 same) ])

eq_iff_same :
    {A : Type 0} {cmp : A → A → Ordering}
    → IsOrder cmp
    → (a b : A) → (cmp a b ≡ Ordering.eq) ↔ (a ≡ b)
eq_iff_same {cmp} o a b = (o.equal a b, λ e. ap (λ x. cmp a x) (sym e) ∙ o.self a)

nat_lt : (a b : ℕ) → LtIff (compare a b) (a < b)
nat_lt a b = (λ h. ground arith, λ h. ground arith)

path_lt : (p q : NodePath) → LtIff (path_cmp p q) (PathBefore p q)
unfolding path_cmp
path_lt [] [] = (λ h. cc, λ h. absurd h)
path_lt (s ∷ p) [] = (λ h. cc, λ h. absurd h)
path_lt [] (t ∷ q) = (λ h. tt, λ h. refl)
path_lt (s ∷ p) (t ∷ q) =
    then_lt (seg_cmp s t) (path_cmp p q) (SegBefore s t) (s ≡ t) (PathBefore p q) (seg_lt s t)
      (eq_iff_same seg-IsOrder s t) (path_lt p q)

addr_lt :
    (a b : Addr)
    → LtIff
        (addr_cmp a b)
        ((compare_text a.run_id b.run_id ≡ Ordering.lt) ⊎ ((a.run_id ≡ b.run_id) × PlaceBefore a b))
unfolding addr_cmp
addr_lt a b =
    then_lt (compare_text a.run_id b.run_id) _ _ _ _ (λ h. h, λ h. h)
      (eq_iff_same text-IsOrder a.run_id b.run_id)
      (then_lt (path_cmp a.node_path b.node_path) _ _ _ _ (path_lt a.node_path b.node_path)
        (eq_iff_same path-IsOrder a.node_path b.node_path)
        (then_lt (compare a.iteration b.iteration) _ _ _ _ (nat_lt a.iteration b.iteration)
          (eq_iff_same nat-IsOrder a.iteration b.iteration) (nat_lt a.local_seq b.local_seq)))

other_run : (a b : Addr) → a.run_id ≡ b.run_id → compare_text a.run_id b.run_id ≢ Ordering.lt
other_run a b same h = let e = (eq_iff_same text-IsOrder a.run_id b.run_id).1 same in cc (e, h)

addr-IsOrder : IsOrder addr_cmp
unfolding addr_cmp
addr-IsOrder = record {
  self = λ a. (parts-IsOrder).self (parts a);
  equal = λ a b h. let e = (parts-IsOrder).equal (parts a) (parts b) h in ground arith;
  turned = λ a b. (parts-IsOrder).turned (parts a) (parts b);
  trans = λ a b c. (parts-IsOrder).trans (parts a) (parts b) (parts c);
}

-- The order of addresses is total: two compare equal only if they are one, comparing them the other
-- way round turns the answer, and `lt` is transitive. It is the structural one: within a run the
-- path decides, where a path comes before those that it is a prefix of, names before indices and
-- indices as numbers; then the iteration; and then the local sequence number.
pub addr_cmp_lem :
    IsOrder addr_cmp
    × ((a b : Addr) → a.run_id ≡ b.run_id → (addr_cmp a b ≡ Ordering.lt) ↔ PlaceBefore a b)
addr_cmp_lem = (
  addr-IsOrder,
  λ a b same.
      let (lt, before) = addr_lt a b in
      (
        λ h. elim (lt h) [ inl other ↦ absurd (other_run a b same other) | inr (e, p) ↦ p ],
        λ p. before (inr (same, p)),
      ),
)
