-- ===== src/Artifact/Checks.antt =====
-- `InvariantReport::compute`, crates/jesterky-contract/src/artifact.rs.
use Prim.Native.String.{◌++◌}
use mathlib.Core.List.{◌++◌ as ◌⧺◌}
use jesterky.Prelude.{
  ℕ, ◌+◌, Bool, false, not, ◌&&◌, ◌||◌, Option, List, [], ◌∷◌, String, is_none, all, any, keep,
  length, leb, ◌==◌, if◌then◌else◌, unwrap_or,
}
use jesterky.Prelude.Text.{decimal, has_prefix}
use jesterky.F64.{F64, zero_f64, one_f64, epsilon, f64_of, f64_div, f64_add, f64_le}
use jesterky.Json.{Value, Members, as_object, as_u64, as_f64, as_bool, as_array}
use jesterky.Json.Object.{get}
use jesterky.Event.{Addr, Event, addr_eq}
use jesterky.Artifact.Defs.{
  NodeInfo, ProcessNode, process_node, Children, none, child, RecordedOutput, InvariantCheck,
  InvariantReport, RunManifest,
}

abbrev pub has_addr : Addr → List Addr → Bool
has_addr a seen = any (λ (s : Addr). addr_eq s a) seen

-- `events.iter().find(|e| !seen.insert(&e.addr))`
unfoldable pub find_duplicate : List Addr → List Event → Option Event
find_duplicate seen [] = Option.none
find_duplicate seen (e ∷ events) =
    let rest = find_duplicate (e.addr ∷ seen) events in
    if has_addr e.addr seen then Option.some e else rest

unfoldable mutual
  pub collect_leaf_addrs : ProcessNode → List Addr
  collect_leaf_addrs (process_node info none) = info.addr ∷ []
  collect_leaf_addrs (process_node info (child c cs)) = collect_leaf_addrs c ⧺ collect_children cs

  pub collect_children : Children → List Addr
  collect_children none = []
  collect_children (child c cs) = collect_leaf_addrs c ⧺ collect_children cs

abbrev pub is_orphan : List Addr → RecordedOutput → Bool
is_orphan leaves r = not (has_addr r.addr leaves)

abbrev pub info_of : ProcessNode → NodeInfo
info_of (process_node info cs) = info

abbrev item_child : ProcessNode → Bool
item_child c = has_prefix "[" (info_of c).label

-- `Option::and_then`
abbrev pub and_then : {A B : Type 0} → Option A → (A → Option B) → Option B
and_then Option.none f = Option.none
and_then (Option.some a) f = f a

abbrev pub field : String → Option Members → Option Value
field k Option.none = Option.none
field k (Option.some m) = get k m

unfoldable pub item_children : Children → ℕ
item_children none = 0
item_children (child c cs) = (if item_child c then 1 else 0) + item_children cs

module _ (show_addr : Addr → String) (show_f64 : F64 → String) where
  unfoldable pub unique_addrs_check : List Event → InvariantCheck
  unfolding find_duplicate decimal
  unique_addrs_check events =
      let dup = find_duplicate [] events in
      record {
        name = "unique_event_addrs";
        ok = is_none dup;
        detail = elim dup [
          | Option.some e ↦ "duplicate event addr " ++ show_addr e.addr
          | Option.none ↦ decimal (length events) ++ " events, all addrs distinct"
        ];
      }

  unfoldable pub no_orphans_check : ProcessNode → List RecordedOutput → InvariantCheck
  unfolding collect_leaf_addrs decimal
  no_orphans_check trace recorded =
      let orphans = length (keep (is_orphan (collect_leaf_addrs trace)) recorded) in
      record {
        name = "no_orphaned_records";
        ok = orphans == 0;
        detail =
            if orphans == 0
            then decimal (length recorded) ++ " recorded outputs all present in trace"
            else decimal orphans ++ " recorded outputs missing from the trace";
      }

  unfoldable pub over_check : String → Option ℕ → ℕ → List InvariantCheck
  unfolding decimal
  over_check label Option.none total = []
  over_check label (Option.some over_len) total =
      record {
        name = "map:" ++ (label ++ ".over_matches_total");
        ok = over_len == total;
        detail =
            "fanned over " ++ (decimal over_len ++ (" items, recorded total " ++ decimal total));
      }
      ∷ []

  -- `successes <= total && (cancelled || ratio + f64::EPSILON >= min_success)`
  unfoldable pub gate_holds : ℕ → ℕ → Bool → F64 → Bool
  unfolding f64_le
  gate_holds successes total cancelled min_success =
      let ratio = if total == 0 then one_f64 else f64_div (f64_of successes) (f64_of total) in
      leb successes total && (cancelled || f64_le min_success (f64_add ratio epsilon))

  unfoldable pub fan_checks : NodeInfo → Children → ℕ → ℕ → List InvariantCheck
  unfolding over_check gate_holds item_children decimal
  fan_checks info children total successes =
      let signal = and_then info.signal as_object in
      let inputs = as_object info.inputs in
      let over_len =
        and_then (and_then (field "over" inputs) as_array) (λ a. Option.some (length a)) in
      let min_success = unwrap_or (and_then (field "min_success" inputs) as_f64) zero_f64 in
      let cancelled = unwrap_or (and_then (field "cancelled" signal) as_bool) false in
      let child_items = item_children children in
      over_check info.label over_len total
      ⧺ record {
        name = "map:" ++ (info.label ++ ".min_success_honored");
        ok = gate_holds successes total cancelled min_success;
        detail =
            decimal successes
            ++ ("/"
                ++ (decimal total
                    ++ (" succeeded (>= min_success "
                        ++ (show_f64 min_success
                            ++ (")" ++ (if cancelled then ", cancelled" else ""))))));
      }
        ∷ record {
          name = "map:" ++ (info.label ++ ".children_within_total");
          ok = leb child_items total;
          detail = decimal child_items ++ (" item children <= " ++ (decimal total ++ " attempted"));
        }
        ∷ []

  -- The checks of one node: none unless its signal has both numbers.
  unfoldable pub node_checks : NodeInfo → Children → List InvariantCheck
  unfolding fan_checks
  node_checks info children =
      let signal = and_then info.signal as_object in
      let total = and_then (field "total" signal) as_u64 in
      let successes = and_then (field "successes" signal) as_u64 in
      elim total [
        | Option.none ↦ []
        | Option.some t ↦ elim successes [
          | Option.none ↦ []
          | Option.some n ↦ fan_checks info children t n
        ]
      ]

  unfoldable mutual
    unfolding node_checks

    pub check_fan_nodes : ProcessNode → List InvariantCheck
    check_fan_nodes (process_node info cs) = node_checks info cs ⧺ check_fan_children cs

    pub check_fan_children : Children → List InvariantCheck
    check_fan_children none = []
    check_fan_children (child c cs) = check_fan_nodes c ⧺ check_fan_children cs

  unfoldable pub trace_checks : Option ProcessNode → List RecordedOutput → List InvariantCheck
  unfolding no_orphans_check check_fan_nodes
  trace_checks Option.none recorded = []
  trace_checks (Option.some trace) recorded =
      no_orphans_check trace recorded ∷ check_fan_nodes trace

  -- `InvariantReport::compute`
  unfoldable pub compute_invariants : RunManifest → InvariantReport
  unfolding unique_addrs_check trace_checks
  compute_invariants manifest =
      let checks =
        unique_addrs_check manifest.events ∷ trace_checks manifest.trace manifest.recorded in
      record { all_ok = all (λ (c : InvariantCheck). c.ok) checks; checks = checks }
