-- ===== src/Runner/Trace/Kept.antt =====
-- A leaf of the tree stays a leaf: what the insertions go into lies deeper than a leaf of a call.
use jesterky.Clock.Lanes.{path_eq→eq}
use jesterky.Prelude.{
  length-append, arith, ◌⊎◌, ◌<◌, inr, [], Bool-cases, ◌≡◌, inl, ◌≤◌, ◌∷◌, suc, length, String, ℕ,
}
use jesterky.Artifact.{child, process_node, Children, NodeInfo, info_of, ProcessNode}
use jesterky.Event.{PathSeg, Addr, NodePath}
use jesterky.Runner.Trace.Insert.{is_place, push_child, descend}
use mathlib.Core.List.{◌++◌ as ◌⧺◌}

unfoldable mutual
  -- The tree at depth `d` has a leaf of address `a` that is deeper than its path is long.
  pub Kept : Addr → ℕ → ProcessNode → Type 0
  Kept a d (process_node info Children.none) = (info.addr ≡ a) × (length a.node_path < d)
  Kept a d (process_node info (child c cs)) = Kept a (suc d) c ⊎ KeptIn a (suc d) cs

  pub KeptIn : Addr → ℕ → Children → Type 0
  KeptIn a d Children.none = ⊥
  KeptIn a d (child c cs) = Kept a d c ⊎ KeptIn a d cs

abbrev pub place_of : ProcessNode → NodePath
place_of n = (info_of n).addr.node_path

-- A node that has some child.
pub into_children :
    (a : Addr) (d : ℕ) (info : NodeInfo) (cs : Children)
    → KeptIn a (suc d) cs
    → Kept a d (process_node info cs)
unfolding Kept KeptIn
into_children a d info Children.none k = absurd k
into_children a d info (child c cs) k = k

pub of_children :
    (a : Addr) (d : ℕ) (info : NodeInfo) (cs : Children)
    → d ≤ length info.addr.node_path
    → Kept a d (process_node info cs)
    → KeptIn a (suc d) cs
unfolding Kept KeptIn
of_children a d info Children.none h k = absurd (ground (arith, h, k.0, k.1))
of_children a d info (child c cs) h k = k

pub descend_keeps :
    (a : Addr) (d : ℕ) (prefix : NodePath) (label : String) (f : ProcessNode → ProcessNode)
    (fresh : ProcessNode) (cs : Children)
    → ((c : ProcessNode) → place_of c ≡ prefix → Kept a d c → Kept a d (f c))
    → KeptIn a d cs
    → KeptIn a d (descend prefix label f fresh cs)
unfolding Kept KeptIn descend
descend_keeps a d prefix label f fresh Children.none keeps k = absurd k
descend_keeps a d prefix label f fresh (child c cs) keeps k =
    elim (Bool-cases (is_place prefix label c)) [
      | inl here ↦ rw here (elim k [
        | inl kc ↦ inl (keeps c (path_eq→eq (place_of c) prefix (ground (arith, here))) kc)
        | inr kcs ↦ inr kcs
      ])
      | inr other ↦ rw other (elim k [
        | inl kc ↦ inl kc
        | inr kcs ↦ inr (descend_keeps a d prefix label f fresh cs keeps kcs)
      ])
    ]

pub descend_makes :
    (a : Addr) (d : ℕ) (prefix : NodePath) (label : String) (f : ProcessNode → ProcessNode)
    (fresh : ProcessNode) (cs : Children)
    → ((c : ProcessNode) → Kept a d (f c))
    → KeptIn a d (descend prefix label f fresh cs)
unfolding Kept KeptIn descend
descend_makes a d prefix label f fresh Children.none makes = inl (makes fresh)
descend_makes a d prefix label f fresh (child c cs) makes =
    elim (Bool-cases (is_place prefix label c)) [
      | inl here ↦ rw here (inl (makes c))
      | inr other ↦ rw other (inr (descend_makes a d prefix label f fresh cs makes))
    ]

pub push_keeps :
    (a : Addr) (d : ℕ) (n : ProcessNode) (cs : Children)
    → KeptIn a d cs
    → KeptIn a d (push_child n cs)
unfolding Kept KeptIn push_child
push_keeps a d n Children.none k = absurd k
push_keeps a d n (child c cs) (inl k) = inl k
push_keeps a d n (child c cs) (inr k) = inr (push_keeps a d n cs k)

pub push_makes :
    (a : Addr) (d : ℕ) (n : ProcessNode) (cs : Children) → Kept a d n → KeptIn a d (push_child n cs)
unfolding Kept KeptIn push_child
push_makes a d n Children.none k = inl k
push_makes a d n (child c cs) k = inr (push_makes a d n cs k)

-- The length of an extended prefix.
pub longer : (prefix : NodePath) (s : PathSeg) → length (prefix ⧺ s ∷ []) ≡ suc (length prefix)
longer prefix s = omega (arith, length-append prefix (s ∷ []))
