-- ===== src/Topology/Whole.antt =====
-- `WorkflowSpec::validate`, `validate_and_hash`, `canonicalize_value` and `format_diagnostics`,
-- crates/jesterky-contract/src/topology.rs. What serde and the digest make of values is a
-- parameter.
use jesterky.F64.{F64}
use jesterky.Json.{
  nil, null, member, Members, cons, Values, string, number, bool, empty, object, array, Value,
}
use jesterky.Topology.Validate.{validate_nodes, validate_entrypoints}
use jesterky.Topology.Graph.{
  node_path_of, is_error, mem, named_node_edges, reachable_nodes, detect_cycles,
}
use jesterky.Json.Object.{put}
use jesterky.Topology.Defs.{warning, WorkflowSpec, Diagnostic}
use jesterky.Prelude.{
  keys, [], keep, ℕ, some, is_empty, err, none, if◌then◌else◌, ok, ◌>>=◌, Result, Option, ◌∷◌, Bool,
  List, String,
}
use Prim.Native.String.{◌++◌}
use mathlib.Core.List.{map as list_map, ◌++◌ as ◌⧺◌}

-- serde_json and sha2, on what `validate_and_hash` gives them.
pub record SpecTools : Type 0 where
  pub is_json : String → Bool
  pub show_f64 : F64 → String
  pub to_value : WorkflowSpec → Result String Value
  pub to_vec : Value → Result String (List ℕ)
  -- the digest in lower-case hexadecimal digits
  pub sha256 : List ℕ → String
  pub diagnostics_to_string : List Diagnostic → Result String String

-- The values that `canonicalize_value` leaves; the map that it collects into keeps its keys in
-- order.
unfoldable mutual
  unfolding put

  pub canonicalize_value : Value → Value
  canonicalize_value (array vs) = array (canonicalize_values vs)
  canonicalize_value (object m) = object (canonicalize_members m empty)
  canonicalize_value null = null
  canonicalize_value (bool b) = bool b
  canonicalize_value (number n) = number n
  canonicalize_value (string s) = string s

  pub canonicalize_values : Values → Values
  canonicalize_values nil = nil
  canonicalize_values (cons v vs) = cons (canonicalize_value v) (canonicalize_values vs)

  pub canonicalize_members : Members → Members → Members
  canonicalize_members empty sorted = sorted
  canonicalize_members (member k v m) sorted =
      canonicalize_members m (put k (canonicalize_value v) sorted)

unfoldable pub join_with : String → List String → String
join_with sep List.[] = ""
join_with sep (List.◌∷◌ s List.[]) = s
join_with sep (List.◌∷◌ s (List.◌∷◌ t ts)) = s ++ (sep ++ join_with sep (List.◌∷◌ t ts))

abbrev line_of : Diagnostic → String
line_of d = d.path ++ (": " ++ d.message)

abbrev or_lines : List Diagnostic → Result String String → String
or_lines ds (ok text) = text
or_lines ds (err message) = join_with "; " (list_map line_of ds)

abbrev warning_at : String → String → Diagnostic
warning_at path message = record { severity = warning; path = path; message = message }

-- A warning for each node that no entrypoint leads to.
unfoldable pub unreachable_warnings : List String → List String → List Diagnostic
unreachable_warnings reachable [] = []
unreachable_warnings reachable (id ∷ ids) =
    (if mem id reachable
      then []
      else warning_at (node_path_of id)
          ("node `" ++ (id ++ "` is not reachable from any entrypoint"))
        ∷ [])
    ⧺ unreachable_warnings reachable ids

module _ (tools : SpecTools) where
  unfoldable pub format_diagnostics : List Diagnostic → String
  unfolding join_with
  format_diagnostics ds = or_lines ds (tools.diagnostics_to_string ds)

  -- The diagnostics before the search for cycles.
  unfoldable pub node_diagnostics : WorkflowSpec → List Diagnostic
  unfolding validate_entrypoints validate_nodes
  node_diagnostics spec =
      validate_entrypoints tools.is_json spec.nodes 0 spec.entrypoint
      ⧺ validate_nodes tools.is_json tools.show_f64 spec.nodes spec.runplan.limits spec.nodes

  abbrev with_warnings :
      WorkflowSpec → Option (List Diagnostic) → Option (List String) → Option (List Diagnostic)
  with_warnings spec (some ds) (some reachable) =
      some (ds ⧺ unreachable_warnings reachable (keys spec.nodes))
  with_warnings spec _ _ = none

  unfoldable pub validate : WorkflowSpec → Option (List Diagnostic)
  unfolding node_diagnostics detect_cycles reachable_nodes named_node_edges unreachable_warnings
  validate spec =
      let graph = named_node_edges spec.nodes in
      with_warnings spec (detect_cycles graph (node_diagnostics spec))
        (reachable_nodes graph spec.nodes spec.entrypoint)

  abbrev prefixed : {A : Type 0} → String → Result String A → Result String A
  prefixed prefix (ok a) = ok a
  prefixed prefix (err message) = err (prefix ++ message)

  unfoldable pub content_hash : WorkflowSpec → Result String String
  unfolding canonicalize_value
  content_hash spec = do
    v ← prefixed "failed to serialize topology: " (tools.to_value spec)
    bytes ←
        prefixed "failed to serialize canonical topology: " (tools.to_vec (canonicalize_value v))
    ok (tools.sha256 bytes)

  abbrev hash_unless : WorkflowSpec → List Diagnostic → Result String String
  hash_unless spec errors =
      if is_empty errors then content_hash spec else err (format_diagnostics errors)

  -- The text is that of `ContractError::Invalid`.
  unfoldable pub validate_and_hash : WorkflowSpec → Option (Result String String)
  unfolding validate content_hash format_diagnostics
  validate_and_hash spec = elim (validate spec) [
    | none ↦ none
    | some ds ↦ some (hash_unless spec (keep is_error ds))
  ]
