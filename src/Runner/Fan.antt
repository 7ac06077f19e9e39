-- ===== src/Runner/Fan.antt =====
-- The kinds of nodes that fan out: `execute_map` with its two ways of dispatch, `execute_for_each`
-- and the arm of `SessionGroup`, crates/jesterky-core/src/runner.rs. The futures that
-- `join_all_ordered` polls are each ready at their first poll here, so each of them runs to its end
-- before the next starts; only a limit can keep one waiting.
use jesterky.Runner.Readings.{collect_map_outputs}
use jesterky.Runner.Errors.{error_text, map_min_success, CoreError}
use jesterky.Topology.{Node}
use jesterky.Prelude.{◌>>=◌ as ◌try_then◌}
use jesterky.Runner.Nodes.{Call}
use jesterky.Json.{to_list, null, bool, string, pos_int, float, array_of, number, array, Value}
use jesterky.Runner.Seam.{RunCtx, Host}
use jesterky.Ledger.{
  restore_item, store_outputs, type_mismatch, bind_item, resolve, resolve_bindings, Bindings, Ref,
  with_item_as, Ledger, LedgerError,
}
use jesterky.F64.{epsilon, f64_of, f64_add, f64_div, f64_lt, one_f64, is_finite, F64}
use jesterky.Prelude.{
  ◌%◌, ◌^◌, leb, zero, err, suc, [], is_ok, ok, none, keep, ◌&&◌, ◌==◌, ◌-◌, unwrap_or, ◌∷◌,
  if◌then◌else◌, String, not, some, length, List, Option, ℕ, Bool, Result,
}
use Prim.Native.Nat.{max}
use mathlib.Core.List.{◌++◌ as ◌⧺◌}
use jesterky.Event.{
  map_completed, map_item_failed, map_item_completed, map_item_started, item, NodePath,
}
use jesterky.Runner.Monad.{
  on_ledger, attempt, writes, record_node_io, set_ledger, try_ledger, give, reads, the_ledger,
  emits, try, Exec, json_object, ◌>>=◌,
}

abbrev pub ItemResult : Type 0
ItemResult = Result String Value

abbrev index_json : ℕ → Value
index_json i = number (pos_int i)

-- The chunk under way, with the room left in it, and the chunks after it.
unfoldable pub cut {ℓ} : {A : Type ℓ} → ℕ → ℕ → List A → List A × List (List A)
cut width room [] = ([], [])
cut width zero (x ∷ xs) = let (c, cs) = cut width (width - 1) xs in ([], (x ∷ c) ∷ cs)
cut width (suc room) (x ∷ xs) = let (c, cs) = cut width room xs in (x ∷ c, cs)

-- `xs.chunks(width)`
unfoldable pub chunks {ℓ} : {A : Type ℓ} → ℕ → List A → List (List A)
unfolding cut
chunks width xs = (cut width 0 xs).1

-- An item that is ready to be dispatched: its index, its ledger and its inputs.
abbrev pub Prepared : Type 0
Prepared = ℕ × Ledger × Value

abbrev pub as_items : LedgerError → Value → Result LedgerError (List Value)
as_items e (array vs) = ok (to_list vs)
as_items e _ = err e

abbrev pub count_ok : List ItemResult → ℕ
count_ok results = length (keep is_ok results)

-- `json!(x)` of an `f64`.
abbrev pub float_json : F64 → Value
float_json x = if is_finite x then number (float x) else null

unfoldable pub success_ratio : ℕ → ℕ → F64
success_ratio successes total =
    if total == 0 then one_f64 else f64_div (f64_of successes) (f64_of total)

-- `min_success` is missed.
unfoldable pub is_gate_closed : Bool → ℕ → ℕ → F64 → Bool
unfolding success_ratio
is_gate_closed cancelled successes total min_success =
    not cancelled && f64_lt (f64_add (success_ratio successes total) epsilon) min_success

unfoldable pub map_inputs : List Value → String → ℕ → F64 → Value
map_inputs items item_as width min_success = json_object (
    ("over", array_of items)
    ∷ ("item_as", string item_as)
    ∷ ("concurrency", number (pos_int width))
    ∷ ("min_success", float_json min_success)
    ∷ [])

unfoldable pub map_signal : ℕ → ℕ → ℕ → Bool → Value
map_signal successes total attempted cancelled = json_object (
    ("successes", number (pos_int successes))
    ∷ ("total", number (pos_int total))
    ∷ ("attempted", number (pos_int attempted))
    ∷ ("cancelled", bool cancelled)
    ∷ [])

unfoldable pub map_width : Option ℕ → Option ℕ → ℕ
map_width (some n) default = max n 1
map_width none default = max (unwrap_or default 1) 1

module _ {S : Type 0} (host : Host S) (ctx : RunCtx) (call : Call S) where
  -- One item, from its `MapItemStarted` on.
  unfoldable pub finished_item : NodePath → ℕ → ℕ → Result CoreError Value → Exec S ItemResult
  finished_item path iteration i (ok v) = do
    u ←
        emits host (item path (i % 2 ^ 32)) iteration map_item_completed
          (json_object (("index", index_json i) ∷ []))
    give (ok v)
  finished_item path iteration i (err e) =
      let message = error_text host.show_addr host.show_f64 e in
      emits host (item path (i % 2 ^ 32)) iteration map_item_failed
        (json_object (("index", index_json i) ∷ ("error", string message) ∷ []))
      >>= λ (u : Unit). give (err message)

  unfoldable pub run_item : NodePath → Node → ℕ → ℕ → Ledger → Option Value → Exec S ItemResult
  unfolding finished_item
  run_item path body iteration i own override = do
    u ←
        emits host (item path (i % 2 ^ 32)) iteration map_item_started
          (json_object (("index", index_json i) ∷ []))
    r ← attempt (on_ledger own (call (item path (i % 2 ^ 32)) body override iteration))
    finished_item path iteration i r

  -- The loop over the items from index `i`.
  unfoldable pub serial_items :
      NodePath → String → Node → Ledger → ℕ → ℕ → List Value → Exec S (List ItemResult)
  unfolding run_item
  serial_items path item_as body base iteration i [] = give []
  serial_items path item_as body base iteration i (v ∷ vs) = if ctx.cancel then give [] else (do
    r ← run_item path body iteration i (with_item_as base item_as v) none
    rs ← serial_items path item_as body base iteration (suc i) vs
    give (r ∷ rs))

  unfoldable pub execute_map_serial :
      NodePath → String → Node → List Value → ℕ → Exec S (List ItemResult)
  unfolding serial_items
  execute_map_serial path item_as body items iteration = do
    base ← the_ledger
    serial_items path item_as body base iteration 0 items

  unfoldable pub prepare :
      String → Node → Ledger → ℕ → List Value → Result LedgerError (List Prepared)
  prepare item_as body base i [] = ok []
  prepare item_as (Node.node k inputs outputs) base i (v ∷ vs) =
      let own = with_item_as base item_as v in
      resolve_bindings host.from_str own inputs try_then (λ (args : Value).
        prepare item_as (Node.node k inputs outputs) base (suc i) vs
        try_then (λ (rest : List Prepared). ok ((i, own, args) ∷ rest)))

  -- The futures of one chunk, in the order in which they are polled.
  unfoldable pub run_chunk : NodePath → Node → ℕ → List Prepared → Exec S (List ItemResult)
  unfolding run_item
  run_chunk path body iteration [] = give []
  run_chunk path body iteration ((i, own, args) ∷ chunk) = do
    r ← run_item path body iteration i own (some args)
    rs ← run_chunk path body iteration chunk
    give (r ∷ rs)

  -- The slots are filled from the front, so what stays empty is at the end.
  unfoldable pub run_chunks : NodePath → Node → ℕ → List (List Prepared) → Exec S (List ItemResult)
  unfolding run_chunk
  run_chunks path body iteration [] = give []
  run_chunks path body iteration (c ∷ cs) = if ctx.cancel then give [] else (do
    rs ← run_chunk path body iteration c
    rest ← run_chunks path body iteration cs
    give (rs ⧺ rest))

  unfoldable pub execute_map_parallel :
      NodePath → String → Node → List Value → ℕ → ℕ → Exec S (List ItemResult)
  unfolding prepare chunks run_chunks
  execute_map_parallel path item_as body items width iteration = do
    base ← the_ledger
    prepared ← try_ledger (prepare item_as body base 0 items)
    run_chunks path body iteration (chunks width prepared)

  abbrev pub run_items : NodePath → String → Node → List Value → ℕ → ℕ → Exec S (List ItemResult)
  run_items path item_as body items width iteration =
      if leb width 1
      then execute_map_serial path item_as body items iteration
      else execute_map_parallel path item_as body items width iteration

  -- `execute_map` from the results on.
  unfoldable pub settle_map :
      NodePath → String → F64 → Bindings → List Value → ℕ → ℕ → List ItemResult → Exec S Value
  unfolding is_gate_closed map_inputs map_signal
  settle_map path item_as min_success outputs items width iteration results =
      let total = length items in
      let successes = count_ok results in
      if is_gate_closed ctx.cancel successes total min_success
      then try (err (map_min_success min_success successes total))
      else (do
        result ← try_ledger (collect_map_outputs outputs results)
        u ← writes (λ l. store_outputs l outputs result)
        v ←
            record_node_io path iteration (map_inputs items item_as width min_success) result none
              (some (map_signal successes total (length results) ctx.cancel))
        w ← emits host path iteration map_completed (
            json_object
              (("successes", number (pos_int successes)) ∷ ("total", number (pos_int total)) ∷ []))
        give result)

  unfoldable pub execute_map :
      NodePath → Ref → String → Option ℕ → F64 → Node → Bindings → ℕ → Exec S Value
  unfolding settle_map map_width
  execute_map path over item_as concurrency min_success body outputs iteration = do
    v ← reads (λ l. resolve host.from_str l over)
    items ← try_ledger (as_items (type_mismatch over) v)
    results ←
        run_items path item_as body items (map_width concurrency ctx.map_concurrency) iteration
    settle_map path item_as min_success outputs items (map_width concurrency ctx.map_concurrency)
        iteration results

  -- The loop of `execute_for_each` from index `i`. `?` comes after the item is restored.
  unfoldable pub each_item : NodePath → String → Node → ℕ → ℕ → List Value → Value → Exec S Value
  each_item path item_as body iteration i [] last = give last
  each_item path item_as body iteration i (v ∷ vs) last = do
    l ← the_ledger
    u ← set_ledger (bind_item l item_as v).1
    r ← attempt (call (item path (i % 2 ^ 32)) body none iteration)
    later ← the_ledger
    w ← set_ledger (restore_item later (bind_item l item_as v).0)
    result ← try r
    each_item path item_as body iteration (suc i) vs result

  unfoldable pub execute_for_each : NodePath → Ref → String → Node → ℕ → Exec S Value
  unfolding each_item
  execute_for_each path over item_as body iteration = do
    v ← reads (λ l. resolve host.from_str l over)
    items ← try_ledger (as_items (type_mismatch over) v)
    last ← each_item path item_as body iteration 0 items null
    u ←
        record_node_io path iteration
          (json_object (("over", array_of items) ∷ ("item_as", string item_as) ∷ [])) last none none
    give last
