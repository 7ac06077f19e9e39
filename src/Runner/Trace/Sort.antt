-- ===== src/Runner/Trace/Sort.antt =====
-- The orders in which `build_trace` of crates/jesterky-core/src/runner.rs goes through the records
-- and leaves the children of a node.
use Prim.Native.Nat.{compare, Ordering}
use jesterky.Clock.{Lane}
use jesterky.Prelude.{true, false, if◌then◌else◌, Bool, [], ◌∷◌, List}
use jesterky.Runner.Trace.Insert.{NodeIo, NodeIos}
use jesterky.Artifact.{info_of, child, RecordedOutput, Children, process_node, ProcessNode}
use jesterky.Event.{◌then_by◌, addr_cmp, path_cmp}

abbrev pub is_gt : Ordering → Bool
is_gt Ordering.lt = false
is_gt Ordering.eq = false
is_gt Ordering.gt = true

-- `sort_by`, which is stable: an insertion before the first that is greater or equal.
unfoldable pub place_recorded : RecordedOutput → List RecordedOutput → List RecordedOutput
unfolding addr_cmp
place_recorded r [] = r ∷ []
place_recorded r (s ∷ rs) =
    if is_gt (addr_cmp r.addr s.addr) then s ∷ place_recorded r rs else r ∷ s ∷ rs

unfoldable pub sort_recorded : List RecordedOutput → List RecordedOutput
unfolding place_recorded
sort_recorded [] = []
sort_recorded (r ∷ rs) = place_recorded r (sort_recorded rs)

abbrev lane_cmp : Lane → Lane → Ordering
lane_cmp a b = path_cmp a.0 b.0 then_by compare a.1 b.1

unfoldable pub place_io : Lane × NodeIo → NodeIos → NodeIos
unfolding path_cmp
place_io e [] = e ∷ []
place_io e (f ∷ ios) = if is_gt (lane_cmp e.0 f.0) then f ∷ place_io e ios else e ∷ f ∷ ios

unfoldable pub sort_io : NodeIos → NodeIos
unfolding place_io
sort_io [] = []
sort_io (e ∷ ios) = place_io e (sort_io ios)

unfoldable pub place_child : ProcessNode → Children → Children
unfolding addr_cmp
place_child n Children.none = child n Children.none
place_child n (child c cs) =
    if is_gt (addr_cmp (info_of n).addr (info_of c).addr)
    then child c (place_child n cs)
    else child n (child c cs)

-- Sorting a child's own children leaves its address alone, so the order of the two steps of
-- `sort_trace` does not matter.
unfoldable mutual
  unfolding place_child

  pub sort_trace : ProcessNode → ProcessNode
  sort_trace (process_node info cs) = process_node info (sort_children cs)

  pub sort_children : Children → Children
  sort_children Children.none = Children.none
  sort_children (child c cs) = place_child (sort_trace c) (sort_children cs)
