-- ===== src/Runner/FanSteps.antt =====
-- The kinds of nodes that fan out keep what their bodies keep, and so does every run of a node.
use jesterky.Json.{null, Value}
use jesterky.Runner.Errors.{CoreError}
use jesterky.F64.{F64}
use jesterky.Ledger.{Bindings, Ledger, Ref}
use jesterky.Prelude.{suc, none, some, [], leb, err, ◌∷◌, ok, Option, Result, String, List, ℕ}
use jesterky.Runner.Steps.{RunsKeep}
use jesterky.Topology.{Node}
use jesterky.Runner.Fan.{
  ItemResult, run_items, Prepared, execute_map_parallel, run_item, execute_map_serial,
  execute_for_each, run_chunks, execute_map, settle_map, serial_items, each_item, run_chunk,
  finished_item,
}
use jesterky.Runner.Keeps.{
  record_node_io-Keeps, on_ledger-Keeps, writes-Keeps, set_ledger-Keeps, attempt-Keeps,
  the_ledger-Keeps, try-Keeps, try_ledger-Keeps, emits-Keeps, if-Keeps, reads-Keeps, bind-Keeps,
  give-Keeps, Keeps, IsKept,
}
use jesterky.Runner.Seam.{RunCtx, Host, RunState}
use jesterky.Event.{NodePath}
use jesterky.Runner.Nodes.{Call}

module _ {S : Type 0} (F : Type 0) (R : RunState S → RunState S → Type 0) (k : IsKept R)
    (host : Host S) (ctx : RunCtx) (call : Call S) where
  finished-Keeps :
      (path : NodePath) (iteration i : ℕ) (r : Result CoreError Value)
      → Keeps F R (finished_item host ctx call path iteration i r)
  unfolding finished_item
  finished-Keeps path iteration i (ok v) =
      bind-Keeps F R k _ _ (emits-Keeps F R k host _ iteration _ _) λ u. give-Keeps F R k _
  finished-Keeps path iteration i (err e) =
      bind-Keeps F R k _ _ (emits-Keeps F R k host _ iteration _ _) λ u. give-Keeps F R k _

  module _ (body : Node) (h : RunsKeep F R k host call body) where
    item-Keeps :
        (path : NodePath) (iteration i : ℕ) (own : Ledger) (override : Option Value)
        → Keeps F R (run_item host ctx call path body iteration i own override)
    unfolding run_item
    item-Keeps path iteration i own override =
        bind-Keeps F R k _ _ (emits-Keeps F R k host _ iteration _ _) λ u.
          bind-Keeps F R k _ _
            (attempt-Keeps F R k _ (on_ledger-Keeps F R k own _ (h _ override iteration)))
            λ r. finished-Keeps path iteration i r

    serial-Keeps :
        (path : NodePath) (item_as : String) (base : Ledger) (iteration i : ℕ) (vs : List Value)
        → Keeps F R (serial_items host ctx call path item_as body base iteration i vs)
    unfolding serial_items
    serial-Keeps path item_as base iteration i [] = give-Keeps F R k _
    serial-Keeps path item_as base iteration i (v ∷ vs) =
        if-Keeps F R k ctx.cancel _ _ (give-Keeps F R k _) (
          bind-Keeps F R k _ _ (item-Keeps path iteration i _ none) λ r.
            bind-Keeps F R k _ _ (serial-Keeps path item_as base iteration (suc i) vs)
              λ rs. give-Keeps F R k _)

    chunk-Keeps :
        (path : NodePath) (iteration : ℕ) (chunk : List Prepared)
        → Keeps F R (run_chunk host ctx call path body iteration chunk)
    unfolding run_chunk
    chunk-Keeps path iteration [] = give-Keeps F R k _
    chunk-Keeps path iteration ((i, own, args) ∷ chunk) =
        bind-Keeps F R k _ _ (item-Keeps path iteration i own (some args))
          λ r. bind-Keeps F R k _ _ (chunk-Keeps path iteration chunk) λ rs. give-Keeps F R k _

    chunks-Keeps :
        (path : NodePath) (iteration : ℕ) (cs : List (List Prepared))
        → Keeps F R (run_chunks host ctx call path body iteration cs)
    unfolding run_chunks
    chunks-Keeps path iteration [] = give-Keeps F R k _
    chunks-Keeps path iteration (c ∷ cs) = if-Keeps F R k ctx.cancel _ _ (give-Keeps F R k _) (
        bind-Keeps F R k _ _ (chunk-Keeps path iteration c)
          λ rs. bind-Keeps F R k _ _ (chunks-Keeps path iteration cs) λ rest. give-Keeps F R k _)

    items-Keeps :
        (path : NodePath) (item_as : String) (items : List Value) (width iteration : ℕ)
        → Keeps F R (run_items host ctx call path item_as body items width iteration)
    unfolding execute_map_serial execute_map_parallel
    items-Keeps path item_as items width iteration =
        if-Keeps F R k (leb width 1) _ _
          (bind-Keeps F R k _ _ (the_ledger-Keeps F R k)
            λ base. serial-Keeps path item_as base iteration 0 items)
          (bind-Keeps F R k _ _ (the_ledger-Keeps F R k) λ base.
            bind-Keeps F R k _ _ (try_ledger-Keeps F R k _)
              λ prepared. chunks-Keeps path iteration _)

    settle-Keeps :
        (path : NodePath) (item_as : String) (min_success : F64) (outputs : Bindings)
        (items : List Value) (width iteration : ℕ) (results : List ItemResult)
        → Keeps F R (
            settle_map host ctx call path item_as min_success outputs items width iteration results)
    unfolding settle_map
    settle-Keeps path item_as min_success outputs items width iteration results =
        if-Keeps F R k _ _ _ (try-Keeps F R k _) (
          bind-Keeps F R k _ _ (try_ledger-Keeps F R k _) λ result.
            bind-Keeps F R k _ _ (writes-Keeps F R k _) λ u.
              bind-Keeps F R k _ _ (record_node_io-Keeps F R k path iteration _ _ _ _) λ v.
                bind-Keeps F R k _ _ (emits-Keeps F R k host path iteration _ _)
                  λ w. give-Keeps F R k _)

    pub map-Keeps :
        (path : NodePath) (over : Ref) (item_as : String) (concurrency : Option ℕ)
        (min_success : F64) (outputs : Bindings) (iteration : ℕ)
        → Keeps F R (
            execute_map host ctx call path over item_as concurrency min_success body outputs
              iteration)
    unfolding execute_map
    map-Keeps path over item_as concurrency min_success outputs iteration =
        bind-Keeps F R k _ _ (reads-Keeps F R k _) λ v.
          bind-Keeps F R k _ _ (try_ledger-Keeps F R k _) λ items.
            bind-Keeps F R k _ _ (items-Keeps path item_as items _ iteration)
              λ results. settle-Keeps path item_as min_success outputs items _ iteration results

    each-Keeps :
        (path : NodePath) (item_as : String) (iteration i : ℕ) (vs : List Value) (last : Value)
        → Keeps F R (each_item host ctx call path item_as body iteration i vs last)
    unfolding each_item
    each-Keeps path item_as iteration i [] last = give-Keeps F R k _
    each-Keeps path item_as iteration i (v ∷ vs) last =
        bind-Keeps F R k _ _ (the_ledger-Keeps F R k) λ l.
          bind-Keeps F R k _ _ (set_ledger-Keeps F R k _) λ u.
            bind-Keeps F R k _ _ (attempt-Keeps F R k _ (h _ none iteration)) λ r.
              bind-Keeps F R k _ _ (the_ledger-Keeps F R k) λ later.
                bind-Keeps F R k _ _ (set_ledger-Keeps F R k _) λ w.
                  bind-Keeps F R k _ _ (try-Keeps F R k _)
                    λ result. each-Keeps path item_as iteration (suc i) vs result

    pub for_each-Keeps :
        (path : NodePath) (over : Ref) (item_as : String) (iteration : ℕ)
        → Keeps F R (execute_for_each host ctx call path over item_as body iteration)
    unfolding execute_for_each
    for_each-Keeps path over item_as iteration = bind-Keeps F R k _ _ (reads-Keeps F R k _) λ v.
        bind-Keeps F R k _ _ (try_ledger-Keeps F R k _) λ items.
          bind-Keeps F R k _ _ (each-Keeps path item_as iteration 0 items null) λ last.
            bind-Keeps F R k _ _ (record_node_io-Keeps F R k path iteration _ _ _ _)
              λ u. give-Keeps F R k _
