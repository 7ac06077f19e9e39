-- ===== src/Topology/Graph.antt =====
-- The branches between named nodes: `named_node_edges`, `detect_cycles` and `reachable_nodes`,
-- crates/jesterky-contract/src/topology.rs. The searches run on fuel, `none` means that it ran out.

use Prim.Native.String.{◌++◌}
use mathlib.Core.List.{◌++◌ as ◌⧺◌, reverse}
use jesterky.Topology.Defs.{error_at, error, kind, branch, Node, NodeKind, Diagnostic}
use jesterky.Prelude.{
  ◌+◌, true, ◌||◌, keys, zero, contains_key, str_eq, ◌&&◌, insert, ◌∷◌, any, lookup, false, length,
  some, if◌then◌else◌, [], none, Bool, unwrap_or, suc, Dict, List, Option, String, ℕ,
}

-- `BTreeMap<NodeId, Vec<NodeId>>`
abbrev pub EdgeMap : Type 0
EdgeMap = Dict (List String)

abbrev otherwise_edge : Option String → List String
otherwise_edge none = []
otherwise_edge (some id) = id ∷ []

unfoldable pub node_edges : NodeKind → List String
node_edges (branch cond then_ otherwise) = then_ ∷ otherwise_edge otherwise
node_edges _ = []

unfoldable pub named_node_edges : Dict Node → EdgeMap
unfolding node_edges
named_node_edges [] = []
named_node_edges ((id, n) ∷ nodes) = (id, node_edges (kind n)) ∷ named_node_edges nodes

abbrev pub edges_of : String → EdgeMap → List String
edges_of id graph = unwrap_or (lookup id graph) []

pub data Mark : Type 0 where
  visiting done : Mark

abbrev pub is_error : Diagnostic → Bool
is_error d = elim d.severity [ error ↦ true | _ ↦ false ]

abbrev pub node_path_of : String → String
node_path_of id = "nodes." ++ id

-- The marks and the diagnostics. The stack that `visit` keeps is never read.
abbrev pub Visit : Type 0
Visit = Dict Mark × List Diagnostic

abbrev pub is_reported : String → List Diagnostic → Bool
is_reported id ds = any (λ (d : Diagnostic). is_error d && str_eq d.path (node_path_of id)) ds

unfoldable pub report_cycle : String → List Diagnostic → List Diagnostic
report_cycle id ds =
    if is_reported id ds
    then ds
    else ds ⧺ error_at (node_path_of id) ("cycle detected at node `" ++ (id ++ "`")) ∷ []

abbrev pub and_visit : Option Visit → (Visit → Option Visit) → Option Visit
and_visit none f = none
and_visit (some v) f = f v

module _ (graph : EdgeMap) where
  -- The loop over the edges; `call` is the recursive call of `visit`.
  unfoldable pub visit_edges : (String → Visit → Option Visit) → List String → Visit → Option Visit
  visit_edges call [] v = some v
  visit_edges call (next ∷ edges) v = elim (contains_key next graph) [
    | true ↦ and_visit (call next v) (λ w. visit_edges call edges w)
    | false ↦ visit_edges call edges v
  ]

  abbrev pub mark_done : String → Option Visit → Option Visit
  mark_done id none = none
  mark_done id (some (marks, ds)) = some (insert id done marks, ds)

  -- The three cases of `marks.get(id)`.
  unfoldable pub visit_marked :
      (String → Visit → Option Visit) → String → Option Mark → Visit → Option Visit
  unfolding report_cycle visit_edges
  visit_marked call id (some done) v = some v
  visit_marked call id (some visiting) v = some (v.0, report_cycle id v.1)
  visit_marked call id none v =
      mark_done id (visit_edges call (edges_of id graph) (insert id visiting v.0, v.1))

  unfoldable pub visit : ℕ → String → Visit → Option Visit
  unfolding visit_marked
  visit zero id v = none
  visit (suc fuel) id v = visit_marked (visit fuel) id (lookup id v.0) v

  unfoldable pub visit_all : ℕ → List String → Visit → Option Visit
  unfolding visit
  visit_all fuel [] v = some v
  visit_all fuel (id ∷ ids) v = and_visit (visit fuel id v) (λ w. visit_all fuel ids w)

  abbrev diagnostics_of : Option Visit → Option (List Diagnostic)
  diagnostics_of none = none
  diagnostics_of (some v) = some v.1

  -- A visit nests at most once for each node.
  unfoldable pub detect_cycles : List Diagnostic → Option (List Diagnostic)
  unfolding visit_all
  detect_cycles ds = diagnostics_of (visit_all (suc (length graph)) (keys graph) ([], ds))

-- Membership in a list of ids.
abbrev pub mem : String → List String → Bool
mem id [] = false
mem id (x ∷ xs) = str_eq x id || mem id xs

abbrev pub edge_count : EdgeMap → ℕ
edge_count [] = 0
edge_count ((id, edges) ∷ graph) = length edges + edge_count graph

module _ (graph : EdgeMap) (nodes : Dict Node) where
  -- `edges.iter().rev()`, pushed in that order onto a stack whose top stands first.
  abbrev pub push_edges : List String → List String → List String
  push_edges [] stack = stack
  push_edges (e ∷ edges) stack =
      if contains_key e nodes then e ∷ push_edges edges stack else push_edges edges stack

  -- The `while let`: the reachable nodes so far and the stack.
  unfoldable pub reach_loop : ℕ → List String → List String → Option (List String)
  reach_loop zero reachable stack = elim stack [ [] ↦ some reachable | _ ∷ _ ↦ none ]
  reach_loop (suc fuel) reachable [] = some reachable
  reach_loop (suc fuel) reachable (id ∷ stack) = elim (mem id reachable) [
    | true ↦ reach_loop fuel reachable stack
    | false ↦ reach_loop fuel (id ∷ reachable) (push_edges (edges_of id graph) stack)
  ]

  abbrev pub known_ids : List String → List String
  known_ids [] = []
  known_ids (id ∷ ids) = if contains_key id nodes then id ∷ known_ids ids else known_ids ids

  -- The last entrypoint is on top of the stack. Each node puts its edges on the stack once.
  unfoldable pub reachable_nodes : List String → Option (List String)
  unfolding reach_loop
  reachable_nodes entrypoint =
      reach_loop (length entrypoint + edge_count graph) [] (reverse (known_ids entrypoint))
