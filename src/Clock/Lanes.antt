-- ===== src/Clock/Lanes.antt =====
-- Equality of paths and lanes, and the counters as a map over lanes.
use jesterky.Prelude.{ℕ, ◌≡◌, refl, true, some, [], ◌∷◌, eq_iff, arith, if◌then◌else◌, eq_refl}
use jesterky.Event.{Addr, addr_eq, node, index, NodePath, path_eq}
use jesterky.Clock.Defs.{Lane, lane_eq, AddrSeqs, seq_at, set_seq}

pub path_eq_refl : (p : NodePath) → path_eq p p ≡ true
unfolding path_eq
path_eq_refl [] = refl
path_eq_refl (node s ∷ p) = ground (arith, eq_refl s, path_eq_refl p)
path_eq_refl (index i ∷ p) = ground (arith, path_eq_refl p)

pub path_eq→eq : (p q : NodePath) → path_eq p q ≡ true → p ≡ q
unfolding path_eq
path_eq→eq [] [] h = refl
path_eq→eq [] (t ∷ q) h = cc
path_eq→eq (s ∷ p) [] h = cc
path_eq→eq (node s ∷ p) (node t ∷ q) h = ground (arith, eq_iff s t, path_eq→eq p q)
path_eq→eq (index s ∷ p) (index t ∷ q) h = ground (arith, path_eq→eq p q)
path_eq→eq (node s ∷ p) (index t ∷ q) h = cc
path_eq→eq (index s ∷ p) (node t ∷ q) h = cc

pub lane_eq_refl : (l : Lane) → lane_eq l l ≡ true
unfolding lane_eq
lane_eq_refl l = ground (arith, path_eq_refl l.0)

pub lane_eq→eq : (l m : Lane) → lane_eq l m ≡ true → l ≡ m
unfolding lane_eq
lane_eq→eq l m h = ground (arith, path_eq→eq l.0 m.0)

pub seq_at-set_seq :
    (l k : Lane) (n : ℕ) (seqs : AddrSeqs)
    → seq_at k (set_seq l n seqs) ≡ (if lane_eq l k then some n else seq_at k seqs)
unfolding seq_at set_seq
seq_at-set_seq l k n [] = refl
seq_at-set_seq l k n ((j, m) ∷ seqs) = ground (
  arith,
  seq_at-set_seq l k n seqs,
  lane_eq→eq j l,
  lane_eq→eq j k,
  lane_eq→eq l k,
  lane_eq_refl k,
)

pub addr_eq_refl : (a : Addr) → addr_eq a a ≡ true
unfolding addr_eq
addr_eq_refl a = ground (arith, eq_refl a.run_id, path_eq_refl a.node_path)

pub addr_eq→eq : (a b : Addr) → addr_eq a b ≡ true → a ≡ b
unfolding addr_eq
addr_eq→eq a b h = ground (arith, eq_iff a.run_id b.run_id, path_eq→eq a.node_path b.node_path)
