-- ===== src/Topology/Validate.antt =====
-- `Ref::validate_syntax`, `Ref::validate_output_destination` and `validate_node`,
-- crates/jesterky-contract/src/topology.rs. Whether a text is a JSON document is serde_json's to
-- say: `is_json`.
use jesterky.Prelude.Text.{is_blank, has_prefix, split_dots, trim, decimal}
use jesterky.Ledger.{Bindings, Ref}
use jesterky.Topology.Defs.{
  resume_session, session_group, branch, while, for_each, map, actor, reduce, program, NodeKind,
  node, Limit, error_at, Node, Diagnostic,
}
use jesterky.F64.{one_f64, zero_f64, f64_le, F64}
use jesterky.Prelude.{
  ◌==◌, not, ◌>>=◌, is_empty, none, ◌&&◌, false, some, str_eq, ◌+◌, true, any, Option, contains_key,
  ℕ, err, ◌∷◌, if◌then◌else◌, [], Dict, ok, Result, List, Bool, String,
}
use Prim.Native.String.{◌++◌}
use mathlib.Core.List.{◌++◌ as ◌⧺◌}

-- The parts of `raw.split('.')`.
unfoldable pub syntax_of_parts : String → List String → Result String Unit
syntax_of_parts raw [] = ok tt
syntax_of_parts raw (source ∷ path) =
    if is_blank source
    then err ("reference `" ++ (raw ++ "` has an empty source"))
    else if any is_blank path
    then err ("reference `" ++ (raw ++ "` contains an empty path segment"))
    else if str_eq source "ledger" && is_empty path
    then err ("reference `" ++ (raw ++ "` must name a ledger key"))
    else ok tt

-- The diagnostic of a refused reference.
abbrev pub refusal : String → Result String Unit → List Diagnostic
refusal path (ok u) = []
refusal path (err message) = error_at path message ∷ []

abbrev pub unless : Bool → String → String → List Diagnostic
unless true path message = []
unless false path message = error_at path message ∷ []

abbrev pub known_otherwise : Dict Node → String → Option String → List Diagnostic
known_otherwise nodes path none = []
known_otherwise nodes path (some otherwise) =
    unless (contains_key otherwise nodes) (path ++ ".otherwise")
      ("branch references unknown node `" ++ (otherwise ++ "`"))

abbrev pub known_limit : Dict ℕ → String → Option Limit → List Diagnostic
known_limit limits path none = []
known_limit limits path (some limit) =
    unless (contains_key limit.name limits) (path ++ ".limit")
      ("limit `" ++ (limit.name ++ "` is not declared in runplan.limits"))

module _ (is_json : String → Bool) where
  unfoldable pub validate_syntax : Ref → Result String Unit
  unfolding trim split_dots syntax_of_parts
  validate_syntax reference =
      let raw = trim reference in
      if is_blank raw
      then err "reference is empty"
      else if is_json raw
      then ok tt
      else syntax_of_parts raw (split_dots raw)

  unfoldable pub validate_output_destination : Ref → Result String Unit
  unfolding validate_syntax trim has_prefix
  validate_output_destination reference =
      let raw = trim reference in
      validate_syntax reference >>= λ u.
      if has_prefix "ledger." raw
      then ok tt
      else err ("output destination `" ++ (raw ++ "` must be a ledger reference"))

  unfoldable pub validate_ref : Ref → String → Bool → List Diagnostic
  validate_ref reference path output =
      refusal path
        (if output then validate_output_destination reference else validate_syntax reference)

  unfoldable pub validate_bindings : Bindings → String → Bool → List Diagnostic
  validate_bindings [] path output = []
  validate_bindings ((name, reference) ∷ bindings) path output =
      validate_ref reference (path ++ ("." ++ name)) output ⧺ validate_bindings bindings path output

  module _ (show_f64 : F64 → String) (nodes : Dict Node) (limits : Dict ℕ) where
    unfoldable mutual
      pub validate_node : Node → String → List Diagnostic
      validate_node (node k inputs outputs) path =
          validate_bindings inputs (path ++ ".inputs") false
          ⧺ (validate_bindings outputs (path ++ ".outputs") true ⧺ validate_kind k path)

      pub validate_kind : NodeKind → String → List Diagnostic
      validate_kind (program op) path = []
      validate_kind (reduce op) path = []
      validate_kind (actor a) path = []
      validate_kind (map over item_as concurrency min_success body) path =
          validate_ref over (path ++ ".over") false
          ⧺ (unless (f64_le zero_f64 min_success && f64_le min_success one_f64)
                (path ++ ".min_success")
                ("min_success must be between 0.0 and 1.0, got " ++ show_f64 min_success)
              ⧺ validate_node body (path ++ ".body"))
      validate_kind (for_each over item_as body) path =
          validate_ref over (path ++ ".over") false ⧺ validate_node body (path ++ ".body")
      validate_kind (while cond body max_iters) path =
          validate_ref cond (path ++ ".cond") false
          ⧺ (unless (not (max_iters == 0)) (path ++ ".max_iters") "max_iters must be greater than 0"
              ⧺ validate_node body (path ++ ".body"))
      validate_kind (branch cond then_ otherwise) path =
          validate_ref cond (path ++ ".cond") false
          ⧺ (unless (contains_key then_ nodes) (path ++ ".then")
                ("branch references unknown node `" ++ (then_ ++ "`"))
              ⧺ known_otherwise nodes path otherwise)
      validate_kind (session_group sessions a body limit) path =
          validate_ref sessions (path ++ ".sessions") false
          ⧺ (known_limit limits path limit ⧺ validate_node body (path ++ ".body"))
      validate_kind (resume_session session body) path =
          validate_ref session (path ++ ".session") false ⧺ validate_node body (path ++ ".body")

  -- The entrypoints that name no node.
  unfoldable pub validate_entrypoints : Dict Node → ℕ → List String → List Diagnostic
  unfolding decimal
  validate_entrypoints nodes idx [] = []
  validate_entrypoints nodes idx (id ∷ ids) =
      unless (contains_key id nodes) ("entrypoint[" ++ (decimal idx ++ "]"))
        ("dangling entrypoint references unknown node `" ++ (id ++ "`"))
      ⧺ validate_entrypoints nodes (idx + 1) ids

  unfoldable pub validate_nodes : (F64 → String) → Dict Node → Dict ℕ → Dict Node → List Diagnostic
  unfolding validate_node
  validate_nodes show_f64 nodes limits [] = []
  validate_nodes show_f64 nodes limits ((id, n) ∷ rest) =
      validate_node show_f64 nodes limits n ("nodes." ++ id)
      ⧺ validate_nodes show_f64 nodes limits rest
