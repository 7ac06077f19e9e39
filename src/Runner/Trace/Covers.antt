-- ===== src/Runner/Trace/Covers.antt =====
-- The recorded calls are leaves of the tree.
use jesterky.Runner.Trace.Leaves.{sort_keeps, Kept-leaf, all-sort_recorded}
use jesterky.Artifact.Coverage.{no_orphans_lem}
use jesterky.Runner.Trace.Sort.{sort_io, sort_recorded}
use jesterky.Json.{Value}
use jesterky.F64.{F64}
use jesterky.Runner.Trace.Build.{trace_root, build_trace}
use jesterky.Runner.Trace.Kept.{
  place_of, descend_keeps, descend_makes, longer, of_children, push_makes, push_keeps,
  into_children, Kept,
}
use jesterky.Artifact.{
  collect_leaf_addrs, has_addr, no_orphans_check, process_node, ProcessNode, RecordedOutput,
}
use jesterky.Event.{Event, NodePath, Addr}
use jesterky.Prelude.{
  subst, unwrap_or, Option, All-map, inr, inl, ◌&&◌, is_empty, Bool-cases, some, all, true, All,
  List, Bool, refl, length-append, ap, arith, ◌∙◌, [], sym, suc, ◌∷◌, ◌≤◌, length, ◌≡◌, ℕ, String,
}
use jesterky.Runner.Trace.Insert.{
  event_inputs_by_addr, insert_all_recorded, insert_all_io, seg_label, leaf_from, NodeIo,
  insert_node_io, EventInputs, NodeIos, insert_recorded,
}
use mathlib.Core.List.{append_assoc, ◌++◌ as ◌⧺◌}

module _ (run_id : String) (a : Addr) where
  recorded_keeps :
      (node_io : NodeIos) (event_inputs : EventInputs) (rec : RecordedOutput)
      (prefix segs : NodePath) (n : ProcessNode)
      → length prefix ≤ length (place_of n)
      → Kept a (length prefix) n
      → Kept a (length prefix) (insert_recorded run_id node_io event_inputs rec prefix segs n)
  unfolding insert_recorded
  recorded_keeps node_io event_inputs rec prefix [] (process_node info cs) h k =
      into_children a (length prefix) info _ (
        push_keeps a (suc (length prefix)) (leaf_from rec event_inputs) cs
          (of_children a (length prefix) info cs h k))
  recorded_keeps node_io event_inputs rec prefix (s ∷ segs) (process_node info cs) h k =
      into_children a (length prefix) info _ (
        rw (sym (longer prefix s)) (
          descend_keeps a (length (prefix ⧺ s ∷ [])) (prefix ⧺ s ∷ []) (seg_label s) _ _ cs
            (λ c same.
              recorded_keeps node_io event_inputs rec (prefix ⧺ s ∷ []) segs c
                (rw same (omega arith)))
            (rw (longer prefix s) (of_children a (length prefix) info cs h k))))

  io_keeps :
      (iteration : ℕ) (io : NodeIo) (prefix segs : NodePath) (n : ProcessNode)
      → length prefix ≤ length (place_of n)
      → Kept a (length prefix) n
      → Kept a (length prefix) (insert_node_io run_id iteration io prefix segs n)
  unfolding insert_node_io
  io_keeps iteration io prefix [] (process_node info cs) h k =
      into_children a (length prefix) _ cs (of_children a (length prefix) info cs h k)
  io_keeps iteration io prefix (s ∷ segs) (process_node info cs) h k =
      into_children a (length prefix) info _ (
        rw (sym (longer prefix s)) (
          descend_keeps a (length (prefix ⧺ s ∷ [])) (prefix ⧺ s ∷ []) (seg_label s) _ _ cs
            (λ c same. io_keeps iteration io (prefix ⧺ s ∷ []) segs c (rw same (omega arith)))
            (rw (longer prefix s) (of_children a (length prefix) info cs h k))))

recorded_makes :
    (run_id : String) (node_io : NodeIos) (event_inputs : EventInputs) (rec : RecordedOutput)
    (prefix segs : NodePath) (n : ProcessNode)
    → rec.addr.node_path ≡ prefix ⧺ segs
    → Kept rec.addr (length prefix) (insert_recorded run_id node_io event_inputs rec prefix segs n)
unfolding insert_recorded leaf_from Kept
recorded_makes run_id node_io event_inputs rec prefix [] (process_node info cs) h =
    into_children rec.addr (length prefix) info _ (
      push_makes rec.addr (suc (length prefix)) (leaf_from rec event_inputs) cs
        (refl, omega (arith, ap length h, length-append prefix [])))
recorded_makes run_id node_io event_inputs rec prefix (s ∷ segs) (process_node info cs) h =
    into_children rec.addr (length prefix) info _ (
      rw (sym (longer prefix s)) (
        descend_makes rec.addr (length (prefix ⧺ s ∷ [])) (prefix ⧺ s ∷ []) (seg_label s) _ _ cs
          (λ c.
            recorded_makes run_id node_io event_inputs rec (prefix ⧺ s ∷ []) segs c
              (h ∙ sym (append_assoc prefix (s ∷ []) segs)))))

module _ (run_id : String) where
  all_recorded_keep :
      (node_io : NodeIos) (event_inputs : EventInputs) (a : Addr) (recs : List RecordedOutput)
      (n : ProcessNode)
      → Kept a 0 n
      → Kept a 0 (insert_all_recorded run_id node_io event_inputs recs n)
  unfolding insert_all_recorded
  all_recorded_keep node_io event_inputs a [] n k = k
  all_recorded_keep node_io event_inputs a (rec ∷ recs) n k =
      all_recorded_keep node_io event_inputs a recs _
        (recorded_keeps run_id a node_io event_inputs rec [] rec.addr.node_path n (omega arith) k)

  all_io_keep :
      (a : Addr) (ios : NodeIos) (n : ProcessNode)
      → Kept a 0 n
      → Kept a 0 (insert_all_io run_id ios n)
  unfolding insert_all_io
  all_io_keep a [] n k = k
  all_io_keep a ((lane, io) ∷ ios) n k =
      all_io_keep a ios _ (io_keeps run_id a lane.1 io [] lane.0 n (omega arith) k)

  All-recorded_make :
      (node_io : NodeIos) (event_inputs : EventInputs) (recs : List RecordedOutput)
      (n : ProcessNode)
      → All
          (λ (r : RecordedOutput).
            Kept r.addr 0 (insert_all_recorded run_id node_io event_inputs recs n))
          recs
  unfolding insert_all_recorded
  All-recorded_make node_io event_inputs [] n = tt
  All-recorded_make node_io event_inputs (rec ∷ recs) n = (
    all_recorded_keep node_io event_inputs rec.addr recs _
        (recorded_makes run_id node_io event_inputs rec [] rec.addr.node_path n refl),
    All-recorded_make node_io event_inputs recs _,
  )

All-to_all :
    (p : RecordedOutput → Bool) (rs : List RecordedOutput)
    → All (λ (r : RecordedOutput). p r ≡ true) rs
    → all p rs ≡ true
All-to_all p [] h = refl
All-to_all p (r ∷ rs) h = ground (arith, h.0, All-to_all p rs h.1)

-- Whatever a run has recorded, and whatever its nodes have noted of their inputs and outputs, each
-- recorded call is a leaf of the tree that `build_trace` makes: the check `no_orphaned_records` of
-- the run's own manifest passes.
pub build_trace_covers :
    (show_addr : Addr → String) (show_f64 : F64 → String) (run_id name : String)
    (args snapshot : Value) (recorded : List RecordedOutput) (node_io : NodeIos)
    (events : List Event) (trace : ProcessNode)
    → build_trace run_id name args snapshot recorded node_io events ≡ some trace
    → (no_orphans_check show_addr show_f64 trace recorded).ok ≡ true
unfolding build_trace
build_trace_covers show_addr show_f64 run_id name args snapshot recorded node_io events trace h =
    elim (Bool-cases (is_empty recorded && is_empty node_io)) [
      | inl none_ ↦ absurd (cc (rw none_ at h))
      | inr some_ ↦
          let leaf : RecordedOutput → Bool = λ r. has_addr r.addr (collect_leaf_addrs trace) in
          let same = ap (λ (o : Option ProcessNode). unwrap_or o trace) (rw some_ at h) in
          let inputs = event_inputs_by_addr events in
          let made =
            All-recorded_make run_id node_io inputs (sort_recorded recorded)
              (trace_root run_id name args snapshot) in
          no_orphans_lem show_addr show_f64 trace recorded
          ∙ sym (all-sort_recorded leaf recorded)
          ∙ All-to_all leaf (sort_recorded recorded) (
              All-map _ _ (sort_recorded recorded)
                (λ r k.
                  subst (λ (t : ProcessNode). has_addr r.addr (collect_leaf_addrs t) ≡ true) same
                    (Kept-leaf r.addr 0 _
                      (sort_keeps r.addr 0 _ (all_io_keep run_id r.addr (sort_io node_io) _ k))))
                made)
    ]
