-- ===== src/Runner/Trace/Insert.antt =====
-- The process tree of a run: `build_trace` and the functions that it calls,
-- crates/jesterky-core/src/runner.rs. A `&mut` into a child is a function on that child; what
-- `position` finds first is what `descend` goes into.

use jesterky.Prelude.Text.{decimal}
use jesterky.F64.{F64}
use jesterky.Clock.{lane_eq, Lane}
use jesterky.Prelude.{
  str_eq, ◌&&◌, false, [], true, unwrap_or, if◌then◌else◌, none, some, ℕ, ◌∷◌, Bool, List, Option,
  String,
}
use jesterky.Event.{
  resource_invoked, actor_invoked, addr_eq, index, path_eq, Event, node, PathSeg, EventKind,
  NodePath, Addr,
}
use jesterky.Json.{as_object, null, Value}
use jesterky.Artifact.{
  resource_step, resource_observe, field, info_of, child, actor, process_node, ProcessNode,
  Children, CallKind, RecordedOutput,
}
use Prim.Native.String.{◌++◌}
use mathlib.Core.List.{◌++◌ as ◌⧺◌}

-- `struct NodeIo`
pub record NodeIo : Type 0 where
  pub inputs : Value
  pub outputs : Value
  pub score : Option F64
  pub signal : Option Value

-- `HashMap<(NodePath, u32), NodeIo>`
abbrev pub NodeIos : Type 0
NodeIos = List (Lane × NodeIo)

unfoldable pub io_at : Lane → NodeIos → Option NodeIo
io_at lane [] = none
io_at lane ((l, io) ∷ ios) = if lane_eq l lane then some io else io_at lane ios

unfoldable pub set_io : Lane → NodeIo → NodeIos → NodeIos
set_io lane io [] = (lane, io) ∷ []
set_io lane io ((l, old) ∷ ios) =
    if lane_eq l lane then (l, io) ∷ ios else (l, old) ∷ set_io lane io ios

abbrev pub EventInputs : Type 0
EventInputs = List (Addr × Value)

unfoldable pub inputs_at : Addr → EventInputs → Option Value
inputs_at addr [] = none
inputs_at addr ((a, v) ∷ inputs) = if addr_eq a addr then some v else inputs_at addr inputs

abbrev is_invoked : EventKind → Bool
is_invoked actor_invoked = true
is_invoked resource_invoked = true
is_invoked _ = false

-- Collected into a map, a later event of the same address replaces an earlier one.
unfoldable pub event_inputs_by_addr : List Event → EventInputs
event_inputs_by_addr [] = []
event_inputs_by_addr (e ∷ events) =
    let rest = event_inputs_by_addr events in
    elim (field "inputs" (as_object e.payload)) [
      | none ↦ rest
      | some inputs ↦ if is_invoked e.kind then rest ⧺ (e.addr, inputs) ∷ [] else rest
    ]

unfoldable pub seg_label : PathSeg → String
seg_label (node name) = name
seg_label (index i) = "[" ++ (decimal i ++ "]")

unfoldable pub call_label : CallKind → String
call_label (actor name) = "actor:" ++ name
call_label (resource_observe session) = "observe:" ++ session
call_label (resource_step session) = "step:" ++ session

unfoldable pub leaf_from : RecordedOutput → EventInputs → ProcessNode
leaf_from rec event_inputs =
    process_node
      (record {
        addr = rec.addr;
        label = call_label rec.call;
        inputs = unwrap_or (inputs_at rec.addr event_inputs) null;
        outputs = rec.outputs;
        score = rec.score;
        signal = rec.signal;
        artifacts = rec.artifacts;
      })
      Children.none

-- `Option::and_then` on what a node recorded.
abbrev io_score : Option NodeIo → Option F64
io_score none = none
io_score (some io) = io.score

abbrev io_signal : Option NodeIo → Option Value
io_signal none = none
io_signal (some io) = io.signal

abbrev io_value : (NodeIo → Value) → Option NodeIo → Value
io_value f none = null
io_value f (some io) = f io

-- An interior node without children.
unfoldable pub interior : String → Lane → String → Option NodeIo → ProcessNode
interior run_id lane label io =
    process_node
      (record {
        addr = record { run_id = run_id; node_path = lane.0; iteration = lane.1; local_seq = 0 };
        label = label;
        inputs = io_value (λ (i : NodeIo). i.inputs) io;
        outputs = io_value (λ (i : NodeIo). i.outputs) io;
        score = io_score io;
        signal = io_signal io;
        artifacts = [];
      })
      Children.none

abbrev pub is_place : NodePath → String → ProcessNode → Bool
is_place prefix label c =
    path_eq (info_of c).addr.node_path prefix && str_eq (info_of c).label label

-- Go into the first child at a place; where there is none, push `fresh` and go into it.
unfoldable pub descend :
    NodePath → String → (ProcessNode → ProcessNode) → ProcessNode → Children → Children
descend prefix label f fresh Children.none = child (f fresh) Children.none
descend prefix label f fresh (child c cs) =
    if is_place prefix label c then child (f c) cs else child c (descend prefix label f fresh cs)

abbrev pub in_children : (Children → Children) → ProcessNode → ProcessNode
in_children f (process_node info cs) = process_node info (f cs)

unfoldable pub push_child : ProcessNode → Children → Children
push_child n Children.none = child n Children.none
push_child n (child c cs) = child c (push_child n cs)

module _ (run_id : String) where
  unfoldable pub insert_recorded :
      NodeIos → EventInputs → RecordedOutput → NodePath → NodePath → ProcessNode → ProcessNode
  insert_recorded node_io event_inputs rec prefix [] n =
      in_children (push_child (leaf_from rec event_inputs)) n
  insert_recorded node_io event_inputs rec prefix (head ∷ tail) n =
      let child_prefix = prefix ⧺ head ∷ [] in
      let lane : Lane = (child_prefix, rec.addr.iteration) in
      in_children
        (descend child_prefix (seg_label head)
          (insert_recorded node_io event_inputs rec child_prefix tail)
          (interior run_id lane (seg_label head) (io_at lane node_io)))
        n

  abbrev with_io : NodeIo → ProcessNode → ProcessNode
  with_io io (process_node info cs) =
      process_node
        (record info {
          inputs = io.inputs;
          outputs = io.outputs;
          score = io.score;
          signal = io.signal;
        })
        cs

  -- The loop over the segments left, from the node at `prefix`.
  unfoldable pub insert_node_io : ℕ → NodeIo → NodePath → NodePath → ProcessNode → ProcessNode
  insert_node_io iteration io prefix [] n = with_io io n
  insert_node_io iteration io prefix (seg ∷ segs) n =
      let child_prefix = prefix ⧺ seg ∷ [] in
      in_children
        (descend child_prefix (seg_label seg) (insert_node_io iteration io child_prefix segs)
          (interior run_id (child_prefix, iteration) (seg_label seg) none))
        n

  unfoldable pub insert_all_recorded :
      NodeIos → EventInputs → List RecordedOutput → ProcessNode → ProcessNode
  insert_all_recorded node_io event_inputs [] n = n
  insert_all_recorded node_io event_inputs (rec ∷ recs) n =
      insert_all_recorded node_io event_inputs recs
        (insert_recorded node_io event_inputs rec [] rec.addr.node_path n)

  unfoldable pub insert_all_io : NodeIos → ProcessNode → ProcessNode
  insert_all_io [] n = n
  insert_all_io ((lane, io) ∷ ios) n = insert_all_io ios (insert_node_io lane.1 io [] lane.0 n)
