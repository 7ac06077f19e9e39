-- ===== src/Tests/TopologyRuns.antt =====
-- The validation of a small node, crates/jesterky-contract/src/topology.rs.

use jesterky.Topology.Destination.{validate_output_destination_lem}
use jesterky.Ledger.{ledger_key_and_path}
use jesterky.Topology.WellFormed.{validate_node_lem, node_ok}
use jesterky.Prelude.Text.{split_dots, has_prefix, trim}
use jesterky.F64.{F64}
use jesterky.Prelude.{
  true, is_ok, refl, All, ◌∷◌, none, ◌≡◌, is_empty, false, Bool, [], Dict, String,
}
use jesterky.Topology.{
  error, Diagnostic, validate_ref, actor, branch, syntax_of_parts, node, validate_bindings,
  validate_syntax, validate_output_destination, validate_node, Node,
}

abbrev no_f64 : F64 → String
no_f64 x = ""

-- No text is a JSON document.
abbrev never : String → Bool
never s = false

abbrev audit : Node
audit =
    node (branch "ledger.ready" "scan" none) (("rows", "ledger.rows") ∷ [])
      (("report", "ledger.report") ∷ [])

abbrev audit_nodes : Dict Node
audit_nodes = ("scan", node (actor "scanner") [] []) ∷ []

validate_node_runs : validate_node never no_f64 audit_nodes [] audit "nodes.audit" ≡ []
unfolding validate_node validate_bindings validate_ref validate_output_destination validate_syntax
    syntax_of_parts trim has_prefix split_dots
validate_node_runs = refl

validate_output_destination_lem_example :
    is_ok (ledger_key_and_path (trim " ledger.report ")) ≡ true
unfolding validate_output_destination validate_syntax syntax_of_parts trim has_prefix split_dots
validate_output_destination_lem_example =
    validate_output_destination_lem never " ledger.report " (λ raw h. refl) refl

validate_node_lem_example :
    let diagnostics = validate_node never no_f64 audit_nodes [] audit "nodes.audit" in
    (is_empty diagnostics ≡ node_ok never audit_nodes [] audit)
    × All (λ (d : Diagnostic). d.severity ≡ error) diagnostics
validate_node_lem_example = validate_node_lem never no_f64 audit_nodes [] audit "nodes.audit"
