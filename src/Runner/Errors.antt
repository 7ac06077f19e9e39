-- ===== src/Runner/Errors.antt =====
-- The errors of a run and their texts: `HostError` of crates/jesterky-core/src/traits.rs,
-- `LedgerError` and `LimitError` as printed, and `CoreError` and `at_node` of
-- crates/jesterky-core/src/runner.rs.
use jesterky.Overlay.{OverlayError, invalid_overlay}
use Prim.Native.String.{◌++◌}
use jesterky.Prelude.Text.{decimal}
use jesterky.F64.{F64}
use jesterky.Event.{index, node, NodePath, Addr}
use jesterky.Limits.{unknown, LimitError}
use jesterky.Ledger.{
  type_mismatch, malformed_literal, bad_path, missing_slot, unknown_source, unresolved, LedgerError,
}
use jesterky.Prelude.{some, none, ℕ, unwrap_or, List, Option, String}

pub data HostError : Type 0 where
  actor : String → String → HostError
  resource store : String → HostError
  replay_miss : Addr → HostError

-- `ContractError`; `Cycle` is made nowhere.
pub data ContractError : Type 0 where
  invalid : String → ContractError
  overlay : OverlayError → ContractError
  cycle : String → ContractError

pub data CoreError : Type 0 where
  unknown_node : String → CoreError
  contract : ContractError → CoreError
  ledger : LedgerError → CoreError
  host : HostError → CoreError
  limit : LimitError → CoreError
  json config unknown_program : String → CoreError
  -- required, successes, total
  map_min_success : F64 → ℕ → ℕ → CoreError

abbrev ledger_text : LedgerError → String
ledger_text (unresolved r) = "unresolved reference: " ++ r
ledger_text (unknown_source r) = "unknown reference source: " ++ r
ledger_text (missing_slot r) = "missing ledger slot: " ++ r
ledger_text (bad_path reference message) = "bad path resolving " ++ (reference ++ (": " ++ message))
ledger_text (malformed_literal raw message) =
    "malformed JSON literal `" ++ (raw ++ ("`: " ++ message))
ledger_text (type_mismatch r) = "type mismatch resolving " ++ r

abbrev contract_text : ContractError → String
contract_text (invalid message) = "invalid topology: " ++ message
contract_text (overlay (invalid_overlay target message)) =
    "invalid " ++ (target ++ (" overlay: " ++ message))
contract_text (cycle id) = "cycle detected at node " ++ id

abbrev limit_text : LimitError → String
limit_text (unknown name) = "limit not configured: " ++ name

module _ (show_addr : Addr → String) (show_f64 : F64 → String) where
  abbrev host_text : HostError → String
  host_text (actor name message) = "actor " ++ (name ++ (" failed: " ++ message))
  host_text (resource message) = "resource error: " ++ message
  host_text (store message) = "artifact store error: " ++ message
  host_text (replay_miss addr) = "not found in replay manifest: " ++ show_addr addr

  -- `err.to_string()`
  unfoldable pub error_text : CoreError → String
  unfolding decimal
  error_text (unknown_node id) = "unknown node: " ++ id
  error_text (contract e) = contract_text e
  error_text (ledger e) = ledger_text e
  error_text (host e) = host_text e
  error_text (limit e) = limit_text e
  error_text (json message) = "json serialization failed: " ++ message
  error_text (config message) = "configuration error: " ++ message
  error_text (unknown_program op) = "program not registered: " ++ op
  error_text (map_min_success required successes total) =
      "map min_success gate failed: required "
      ++ (show_f64 required ++ (", got " ++ (decimal successes ++ ("/" ++ decimal total))))

-- The last name of a path.
last_name : NodePath → Option String
last_name List.[] = none
last_name (List.◌∷◌ (node name) path) = elim (last_name path) [
  | none ↦ some name
  | some later ↦ some later
]
last_name (List.◌∷◌ (index i) path) = last_name path

abbrev in_context : String → LedgerError → LedgerError
in_context ctx (unresolved r) = unresolved (r ++ ctx)
in_context ctx (unknown_source r) = unknown_source (r ++ ctx)
in_context ctx (missing_slot r) = missing_slot (r ++ ctx)
in_context ctx (bad_path reference message) = bad_path (reference ++ ctx) message
in_context ctx (malformed_literal raw message) = malformed_literal (raw ++ ctx) message
in_context ctx (type_mismatch r) = type_mismatch (r ++ ctx)

unfoldable pub at_node : LedgerError → NodePath → LedgerError
unfolding last_name
at_node e path =
    in_context (" (resolving inputs of node `" ++ (unwrap_or (last_name path) "root" ++ "`)")) e
