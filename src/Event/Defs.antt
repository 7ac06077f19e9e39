-- ===== src/Event/Defs.antt =====
-- Node paths, addresses and events, crates/jesterky-contract/src/event.rs, with the order that
-- `#[derive(Ord)]` gives: variants, then fields, in the order of declaration.
use Prim.Native.Nat.{compare, Ordering}
use Prim.Native.String.{compare as compare_text}
use jesterky.Prelude.{ℕ, Bool, true, false, ◌&&◌, List, [], ◌∷◌, ◌++◌, String, str_eq, ◌==◌}
use jesterky.Json.{Value}

pub data PathSeg : Type 0 where
  node : String → PathSeg
  index : ℕ → PathSeg

-- `struct NodePath(pub Vec<PathSeg>)`
abbrev pub NodePath : Type 0
NodePath = List PathSeg

abbrev pub root : NodePath
root = []

abbrev pub child : NodePath → String → NodePath
child path name = path ++ node name ∷ []

abbrev pub item : NodePath → ℕ → NodePath
item path i = path ++ index i ∷ []

pub record Addr : Type 0 where
  pub run_id : String
  pub node_path : NodePath
  pub iteration : ℕ
  pub local_seq : ℕ

pub data EventKind : Type 0 where
  workflow_started node_started node_completed : EventKind
  map_item_started map_item_completed map_item_failed map_completed : EventKind
  actor_invoked resource_invoked : EventKind
  session_started session_resumed checkpoint_created : EventKind
  semaphore_acquired semaphore_released : EventKind
  message_published message_available artifact_emitted : EventKind
  workflow_completed workflow_failed : EventKind

pub record Event : Type 0 where
  pub addr : Addr
  pub kind : EventKind
  pub payload : Value
  pub wall_ms : ℕ

-- The first difference decides.
infixr 30 ◌then_by◌
abbrev pub ◌then_by◌ : Ordering → Ordering → Ordering
Ordering.lt then_by o = Ordering.lt
Ordering.eq then_by o = o
Ordering.gt then_by o = Ordering.gt

abbrev pub seg_cmp : PathSeg → PathSeg → Ordering
seg_cmp (node s) (node t) = compare_text s t
seg_cmp (node s) (index j) = Ordering.lt
seg_cmp (index i) (node t) = Ordering.gt
seg_cmp (index i) (index j) = compare i j

unfoldable pub path_cmp : NodePath → NodePath → Ordering
path_cmp [] [] = Ordering.eq
path_cmp [] (t ∷ q) = Ordering.lt
path_cmp (s ∷ p) [] = Ordering.gt
path_cmp (s ∷ p) (t ∷ q) = seg_cmp s t then_by path_cmp p q

unfoldable pub addr_cmp : Addr → Addr → Ordering
unfolding path_cmp
addr_cmp a b =
    compare_text a.run_id b.run_id
    then_by path_cmp a.node_path b.node_path
    then_by compare a.iteration b.iteration
    then_by compare a.local_seq b.local_seq

-- `==` of `#[derive(PartialEq)]`.
abbrev pub seg_eq : PathSeg → PathSeg → Bool
seg_eq (node s) (node t) = str_eq s t
seg_eq (index i) (index j) = i == j
seg_eq _ _ = false

unfoldable pub path_eq : NodePath → NodePath → Bool
path_eq [] [] = true
path_eq (s ∷ p) (t ∷ q) = seg_eq s t && path_eq p q
path_eq _ _ = false

unfoldable pub addr_eq : Addr → Addr → Bool
addr_eq a b =
    str_eq a.run_id b.run_id
    && (path_eq a.node_path b.node_path
        && (a.iteration == b.iteration && a.local_seq == b.local_seq))
