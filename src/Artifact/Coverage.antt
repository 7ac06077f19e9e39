-- ===== src/Artifact/Coverage.antt =====
-- The check `no_orphaned_records`: the recorded outputs against the leaves of the trace.

use jesterky.Artifact.UniqueAddrs.{unique_addrs_lem}
use jesterky.Clock.Unique.{AreUnique}
use jesterky.Artifact.Defs.{InvariantCheck, RunManifest}
use jesterky.Artifact.Checks.{check_fan_nodes, trace_checks, compute_invariants}
use jesterky.Artifact.{
  is_orphan, collect_leaf_addrs, has_addr, RecordedOutput, ProcessNode, no_orphans_check,
}
use jesterky.F64.{F64}
use jesterky.Prelude.{
  ◌↔◌, some, ◌&&◌, Bool, [], arith, ◌∷◌, true, ◌==◌, keep, length, all, ◌≡◌, List, String,
}
use jesterky.Event.{Addr}

three_true : (a b c : Bool) → (a && (b && c)) ≡ true → (a ≡ true) × (b ≡ true) × (c ≡ true)
three_true a b c h = ground (arith, h)

three_hold : (a b c : Bool) → a ≡ true → b ≡ true → c ≡ true → (a && (b && c)) ≡ true
three_hold a b c p q r = ground (arith, p, q, r)

no_orphans_count :
    (leaves : List Addr) (recorded : List RecordedOutput)
    → (length (keep (is_orphan leaves) recorded) == 0)
      ≡ all (λ (r : RecordedOutput). has_addr r.addr leaves) recorded
no_orphans_count leaves [] = λ i. true
no_orphans_count leaves (r ∷ rs) = ground (arith, no_orphans_count leaves rs)

module _ (show_addr : Addr → String) (show_f64 : F64 → String) where
  -- The verdict of the check is that every recorded output has the address of a leaf.
  pub no_orphans_lem :
      (trace : ProcessNode) (recorded : List RecordedOutput)
      → (no_orphans_check show_addr show_f64 trace recorded).ok
        ≡ all (λ (r : RecordedOutput). has_addr r.addr (collect_leaf_addrs trace)) recorded
  unfolding no_orphans_check
  no_orphans_lem trace recorded = no_orphans_count (collect_leaf_addrs trace) recorded

  -- When the self-check of a manifest with a trace passes, no two of its events share an address,
  -- every recorded output has the address of a leaf of the trace, and every check of its fan nodes
  -- holds; and these three are all that it takes.
  pub compute_invariants_lem :
      (manifest : RunManifest) (trace : ProcessNode)
      → manifest.trace ≡ some trace
      → ((compute_invariants show_addr show_f64 manifest).all_ok ≡ true) ↔ (
          AreUnique manifest.events
          × (all
                (λ (r : RecordedOutput). has_addr r.addr (collect_leaf_addrs trace))
                manifest.recorded
              ≡ true)
          × (all (λ (c : InvariantCheck). c.ok) (check_fan_nodes show_addr show_f64 trace) ≡ true))
  unfolding compute_invariants trace_checks
  compute_invariants_lem manifest trace traced =
      let covered = no_orphans_lem trace manifest.recorded in
      let (sound, complete) = unique_addrs_lem show_addr show_f64 manifest.events in
      rw (traced, covered)
        (
          λ h. let (a, b, c) = three_true _ _ _ h in (sound a, b, c),
          λ h. three_hold _ _ _ (complete h.0) h.1 h.2,
        )
