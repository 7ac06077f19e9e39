-- ===== src/Topology/WellFormed.antt =====
-- What `validate_node` refuses, said of the node itself.
use Prim.Native.String.{◌++◌}
use jesterky.F64.{F64, one_f64, zero_f64, f64_le}
use jesterky.Topology.Validate.{
  validate_kind, validate_node, known_otherwise, known_limit, validate_syntax,
  validate_output_destination, refusal, unless, validate_bindings, validate_ref,
}
use jesterky.Ledger.{Ref, Bindings}
use jesterky.Prelude.{
  [], ◌==◌, not, none, contains_key, some, Option, err, All, ok, ℕ, ◌∷◌, ◌≡◌, all, false, is_empty,
  true, ◌&&◌, is_ok, Result, Dict, Bool, List, String,
}
use mathlib.Core.List.{map as list_map, ◌++◌ as ◌⧺◌}
use jesterky.Topology.Defs.{
  Limit, NodeKind, node, error, Node, Diagnostic, actor, map, reduce, for_each, while, branch,
  session_group, resume_session, program,
}

abbrev refs : Bindings → List Ref
refs bindings = list_map (λ (b : String × Ref). b.1) bindings

module _ (is_json : String → Bool) where
  abbrev input_ok : Ref → Bool
  input_ok reference = is_ok (validate_syntax is_json reference)

  abbrev output_ok : Ref → Bool
  output_ok reference = is_ok (validate_output_destination is_json reference)

module _ (is_json : String → Bool) (nodes : Dict Node) (limits : Dict ℕ) where
  abbrev otherwise_ok : Option String → Bool
  otherwise_ok none = true
  otherwise_ok (some id) = contains_key id nodes

  abbrev limit_ok : Option Limit → Bool
  limit_ok none = true
  limit_ok (some limit) = contains_key limit.name limits

  unfoldable mutual
    pub node_ok : Node → Bool
    node_ok (node k inputs outputs) =
        all (input_ok is_json) (refs inputs)
        && (all (output_ok is_json) (refs outputs) && kind_ok k)

    pub kind_ok : NodeKind → Bool
    kind_ok (program op) = true
    kind_ok (reduce op) = true
    kind_ok (actor a) = true
    kind_ok (map over item_as concurrency min_success body) =
        input_ok is_json over
        && ((f64_le zero_f64 min_success && f64_le min_success one_f64) && node_ok body)
    kind_ok (for_each over item_as body) = input_ok is_json over && node_ok body
    kind_ok (while cond body max_iters) =
        input_ok is_json cond && (not (max_iters == 0) && node_ok body)
    kind_ok (branch cond then_ otherwise) =
        input_ok is_json cond && (contains_key then_ nodes && otherwise_ok otherwise)
    kind_ok (session_group sessions a body limit) =
        input_ok is_json sessions && (limit_ok limit && node_ok body)
    kind_ok (resume_session session body) = input_ok is_json session && node_ok body

-- A list of diagnostics that says whether a test holds: empty if so, and all errors.
abbrev Reports : List Diagnostic → Bool → Type 0
Reports ds b = (is_empty ds ≡ b) × All (λ (d : Diagnostic). d.severity ≡ error) ds

All-append :
    (xs ys : List Diagnostic)
    → All (λ (d : Diagnostic). d.severity ≡ error) xs
    → All (λ (d : Diagnostic). d.severity ≡ error) ys
    → All (λ (d : Diagnostic). d.severity ≡ error) (xs ⧺ ys)
All-append [] ys h k = k
All-append (x ∷ xs) ys h k = (h.0, All-append xs ys h.1 k)

Reports-append :
    (xs ys : List Diagnostic) (a b : Bool)
    → Reports xs a
    → Reports ys b
    → Reports (xs ⧺ ys) (a && b)
Reports-append [] ys true b h k = k
Reports-append [] ys false b h k = cc
Reports-append (x ∷ xs) ys true b h k = cc
Reports-append (x ∷ xs) ys false b h k = ((λ i. false), All-append (x ∷ xs) ys h.1 k.1)

refusal_lem : (path : String) (r : Result String Unit) → Reports (refusal path r) (is_ok r)
refusal_lem path (ok u) = ((λ i. true), tt)
refusal_lem path (err e) = ((λ i. false), ((λ i. error), tt))

unless_lem : (b : Bool) (path message : String) → Reports (unless b path message) b
unless_lem true path message = ((λ i. true), tt)
unless_lem false path message = ((λ i. false), ((λ i. error), tt))

module _ (is_json : String → Bool) where
  input_lem :
      (r : Ref) (path : String) → Reports (validate_ref is_json r path false) (input_ok is_json r)
  unfolding validate_ref
  input_lem r path = refusal_lem path (validate_syntax is_json r)

  output_lem :
      (r : Ref) (path : String) → Reports (validate_ref is_json r path true) (output_ok is_json r)
  unfolding validate_ref
  output_lem r path = refusal_lem path (validate_output_destination is_json r)

  inputs_lem :
      (bs : Bindings) (path : String)
      → Reports (validate_bindings is_json bs path false) (all (input_ok is_json) (refs bs))
  unfolding validate_bindings
  inputs_lem [] path = ((λ i. true), tt)
  inputs_lem ((name, r) ∷ bs) path =
      Reports-append _ _ _ _ (input_lem r (path ++ ("." ++ name))) (inputs_lem bs path)

  outputs_lem :
      (bs : Bindings) (path : String)
      → Reports (validate_bindings is_json bs path true) (all (output_ok is_json) (refs bs))
  unfolding validate_bindings
  outputs_lem [] path = ((λ i. true), tt)
  outputs_lem ((name, r) ∷ bs) path =
      Reports-append _ _ _ _ (output_lem r (path ++ ("." ++ name))) (outputs_lem bs path)

module _ (is_json : String → Bool) (show_f64 : F64 → String) (nodes : Dict Node)
    (limits : Dict ℕ) where
  known_otherwise_lem :
      (path : String) (o : Option String)
      → Reports (known_otherwise nodes path o) (otherwise_ok is_json nodes limits o)
  known_otherwise_lem path none = ((λ i. true), tt)
  known_otherwise_lem path (some id) = unless_lem _ _ _

  known_limit_lem :
      (path : String) (o : Option Limit)
      → Reports (known_limit limits path o) (limit_ok is_json nodes limits o)
  known_limit_lem path none = ((λ i. true), tt)
  known_limit_lem path (some limit) = unless_lem _ _ _

  mutual
    unfolding validate_node node_ok

    node_lem :
        (n : Node) (path : String)
        → Reports
            (validate_node is_json show_f64 nodes limits n path)
            (node_ok is_json nodes limits n)
    node_lem (node k inputs outputs) path =
        Reports-append _ _ _ _ (inputs_lem is_json inputs (path ++ ".inputs")) (
          Reports-append _ _ _ _ (outputs_lem is_json outputs (path ++ ".outputs"))
            (kind_lem k path))

    kind_lem :
        (k : NodeKind) (path : String)
        → Reports
            (validate_kind is_json show_f64 nodes limits k path)
            (kind_ok is_json nodes limits k)
    kind_lem (program op) path = ((λ i. true), tt)
    kind_lem (reduce op) path = ((λ i. true), tt)
    kind_lem (actor a) path = ((λ i. true), tt)
    kind_lem (map over item_as concurrency min_success body) path =
        Reports-append _ _ _ _ (input_lem is_json over (path ++ ".over"))
          (Reports-append _ _ _ _ (unless_lem _ _ _) (node_lem body (path ++ ".body")))
    kind_lem (for_each over item_as body) path =
        Reports-append _ _ _ _ (input_lem is_json over (path ++ ".over"))
          (node_lem body (path ++ ".body"))
    kind_lem (while cond body max_iters) path =
        Reports-append _ _ _ _ (input_lem is_json cond (path ++ ".cond"))
          (Reports-append _ _ _ _ (unless_lem _ _ _) (node_lem body (path ++ ".body")))
    kind_lem (branch cond then_ otherwise) path =
        Reports-append _ _ _ _ (input_lem is_json cond (path ++ ".cond"))
          (Reports-append _ _ _ _ (unless_lem _ _ _) (known_otherwise_lem path otherwise))
    kind_lem (session_group sessions a body limit) path =
        Reports-append _ _ _ _ (input_lem is_json sessions (path ++ ".sessions"))
          (Reports-append _ _ _ _ (known_limit_lem path limit) (node_lem body (path ++ ".body")))
    kind_lem (resume_session session body) path =
        Reports-append _ _ _ _ (input_lem is_json session (path ++ ".session"))
          (node_lem body (path ++ ".body"))

  -- `validate_node` reports nothing exactly of a well-formed node: each reference is valid at its
  -- place, a map's share of successes lies between 0 and 1, a loop may run, and each branch and
  -- limit is declared, in every nested body. All that it reports are errors.
  pub validate_node_lem :
      (n : Node) (path : String)
      → let diagnostics = validate_node is_json show_f64 nodes limits n path in
        (is_empty diagnostics ≡ node_ok is_json nodes limits n)
        × All (λ (d : Diagnostic). d.severity ≡ error) diagnostics
  validate_node_lem n path = node_lem n path
