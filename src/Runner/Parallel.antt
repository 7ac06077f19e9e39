-- ===== src/Runner/Parallel.antt =====
-- The parallel dispatch of a map against the serial one.
use jesterky.Runner.Sequence.{in_turn, if_off, same_after, concat-chunks, concat, give_back, if_on}
use jesterky.Runner.Fan.{
  execute_map_serial, execute_map_parallel, run_chunks, chunks, finished_item, ItemResult, Prepared,
  prepare, serial_items, run_chunk, run_item,
}
use jesterky.Json.{null, Value}
use jesterky.Ledger.{LedgerError, with_item_as, Ledger, resolve_bindings, Bindings}
use jesterky.Topology.{
  resume_session, session_group, branch, while, for_each, reduce, program, Node, NodeKind,
}
use jesterky.Event.{item, node_completed, NodePath}
use jesterky.Prelude.{
  ◌%◌, ◌^◌, Bool-cases, is_ok, All, true, sym, Result, subst, ◌∙◌, inr, inl, [], Result-cases,
  false, ◌∷◌, List, String, ap, zero, suc, none, some, refl, err, ℕ, ok, ◌≡◌,
}
use jesterky.Runner.Execute.{run_node, run_kind, execute_node}
use jesterky.Runner.Seam.{RunCtx, Host}
use mathlib.Core.List.{◌++◌ as ◌⧺◌}
use jesterky.Runner.Monad.{
  try_ledger, the_ledger, back_on, attempted, on_ledger, attempt, reads, give, emits, and_then_run,
  RunWorld, Exec, Answer, ◌>>=◌,
}
use jesterky.Runner.Nodes.{run_actor, run_program, Call}

module _ {S : Type 0} (host : Host S) (ctx : RunCtx) where
  -- Inputs that are handed over are those that the node would resolve.
  kind_override :
      (call : Call S) (path : NodePath) (kind_ : NodeKind) (inputs outputs : Bindings) (v : Value)
      (iteration : ℕ) (w : RunWorld S)
      → resolve_bindings host.from_str w.0 inputs ≡ ok v
      → run_kind host ctx call path kind_ inputs outputs (some v) iteration w
        ≡ run_kind host ctx call path kind_ inputs outputs none iteration w
  unfolding run_kind run_program run_actor ◌>>=◌ give reads
  kind_override call path (program op) inputs outputs v iteration w e = rw e refl
  kind_override call path (reduce op) inputs outputs v iteration w e = rw e refl
  kind_override call path (NodeKind.actor name) inputs outputs v iteration w e = rw e refl
  kind_override call path (NodeKind.map over item_as concurrency min_success body) inputs outputs v
        iteration w e =
      refl
  kind_override call path (for_each over item_as body) inputs outputs v iteration w e = refl
  kind_override call path (while cond body max_iters) inputs outputs v iteration w e = refl
  kind_override call path (branch cond then_ otherwise) inputs outputs v iteration w e = refl
  kind_override call path (session_group sessions name body limit_) inputs outputs v iteration w e =
      refl
  kind_override call path (resume_session session body) inputs outputs v iteration w e = refl

  override_lem :
      (fuel : ℕ) (path : NodePath) (kind_ : NodeKind) (inputs outputs : Bindings) (v : Value)
      (iteration : ℕ) (w : RunWorld S)
      → resolve_bindings host.from_str w.0 inputs ≡ ok v
      → execute_node host ctx fuel path (Node.node kind_ inputs outputs) (some v) iteration w
        ≡ execute_node host ctx fuel path (Node.node kind_ inputs outputs) none iteration w
  unfolding execute_node run_node ◌>>=◌ emits
  override_lem zero path kind_ inputs outputs v iteration w e = refl
  override_lem (suc fuel) path kind_ inputs outputs v iteration w e =
      ap
        (λ (o : Answer S Value). and_then_run o λ (result : Value).
          emits host path iteration node_completed null >>= λ (u : Unit). give result)
        (kind_override (execute_node host ctx fuel) path kind_ inputs outputs v iteration _ e)

  module _ (fuel : ℕ) (path : NodePath) (item_as : String) (kind_ : NodeKind)
      (inputs outputs : Bindings) (iteration : ℕ) where
    abbrev body : Node
    body = Node.node kind_ inputs outputs

    abbrev run_ : Call S
    run_ = execute_node host ctx fuel

    item_same :
        (i : ℕ) (own : Ledger) (v : Value) (w : RunWorld S)
        → resolve_bindings host.from_str own inputs ≡ ok v
        → run_item host ctx run_ path body iteration i own (some v) w
          ≡ run_item host ctx run_ path body iteration i own none w
    unfolding run_item ◌>>=◌ emits attempt on_ledger
    item_same i own v w e =
        ap
          (λ (o : Answer S Value).
            and_then_run (attempted (back_on w.0 o)) (finished_item host ctx run_ path iteration i))
          (override_lem fuel (item path (i % 2 ^ 32)) kind_ inputs outputs v iteration _ e)

    abbrev chunk_ : List Prepared → Exec S (List ItemResult)
    chunk_ ps = run_chunk host ctx run_ path body iteration ps

    abbrev serial_ : Ledger → ℕ → List Value → Exec S (List ItemResult)
    serial_ base i vs = serial_items host ctx run_ path item_as body base iteration i vs

    abbrev put_first : ItemResult → List ItemResult → Exec S (List ItemResult)
    put_first r rs = give (r ∷ rs)

    abbrev join_chunk : List Prepared → List ItemResult → Exec S (List ItemResult)
    join_chunk ys rs = chunk_ ys >>= λ (rest : List ItemResult). give (rs ⧺ rest)

    ok_list : Result LedgerError (List Prepared) → List Prepared
    ok_list (ok ps) = ps
    ok_list (err e) = []

    -- Without a cancel, the futures of all items in turn are the serial loop.
    chunk_same :
        (base : Ledger) (i : ℕ) (vs : List Value) (prepared : List Prepared) (w : RunWorld S)
        → ctx.cancel ≡ false
        → prepare host ctx run_ item_as body base i vs ≡ ok prepared
        → chunk_ prepared w ≡ serial_ base i vs w
    unfolding run_chunk serial_items prepare ◌>>=◌ ok_list
    chunk_same base i [] prepared w off e =
        subst (λ (ps : List Prepared). chunk_ ps w ≡ serial_ base i [] w) (ap ok_list e) refl
    chunk_same base i (v ∷ vs) prepared w off e =
        let own = with_item_as base item_as v in
        elim (Result-cases (resolve_bindings host.from_str own inputs)) [
          | inl (args, there) ↦
              elim (Result-cases (prepare host ctx run_ item_as body base (suc i) vs)) [
                | inl (rest, later) ↦
                    subst (λ (ps : List Prepared). chunk_ ps w ≡ serial_ base i (v ∷ vs) w)
                      (ap ok_list (rw (there, later) at e))
                      (ap
                          (λ (o : Answer S ItemResult).
                            and_then_run o λ (r : ItemResult). chunk_ rest >>= put_first r)
                          (item_same i own args w there)
                        ∙ same_after (run_item host ctx run_ path body iteration i own none w)
                            (λ (r : ItemResult). chunk_ rest >>= put_first r)
                            (λ (r : ItemResult). serial_ base (suc i) vs >>= put_first r)
                            (λ r w'.
                              ap (λ (o : Answer S (List ItemResult)). and_then_run o (put_first r))
                                (chunk_same base (suc i) vs rest w' off later))
                        ∙ if_off ctx.cancel (give [])
                            (run_item host ctx run_ path body iteration i own none
                              >>= λ (r : ItemResult). serial_ base (suc i) vs >>= put_first r)
                            w off)
                | inr (x, failed) ↦ absurd (cc (rw (there, failed) at e))
              ]
          | inr (x, failed) ↦ absurd (cc (rw failed at e))
        ]

    append_chunk :
        (xs ys : List Prepared) (w : RunWorld S)
        → chunk_ (xs ⧺ ys) w ≡ (chunk_ xs >>= join_chunk ys) w
    unfolding run_chunk ◌>>=◌ give
    append_chunk [] ys w = give_back (chunk_ ys w)
    append_chunk ((i, own, args) ∷ xs) ys w =
        let here = run_item host ctx run_ path body iteration i own (some args) w in
        same_after here (λ (r : ItemResult). chunk_ (xs ⧺ ys) >>= put_first r)
          (λ (r : ItemResult). (chunk_ xs >>= put_first r) >>= join_chunk ys)
          (λ r w'.
            ap (λ (o : Answer S (List ItemResult)). and_then_run o (put_first r))
              (append_chunk xs ys w')
            ∙ in_turn (chunk_ xs w') (join_chunk ys) (put_first r)
            ∙ same_after (chunk_ xs w') (λ (rs : List ItemResult). join_chunk ys rs >>= put_first r)
                (λ (rs : List ItemResult). join_chunk ys (r ∷ rs))
                (λ rs u.
                  in_turn (chunk_ ys u) (λ (rest : List ItemResult). give (rs ⧺ rest))
                    (put_first r))
            ∙ sym (in_turn (chunk_ xs w') (put_first r) (join_chunk ys)))
        ∙ sym (in_turn here (λ (r : ItemResult). chunk_ xs >>= put_first r) (join_chunk ys))

    -- Without a cancel, the chunks one after the other are one chunk.
    chunks_same :
        (css : List (List Prepared)) (w : RunWorld S)
        → ctx.cancel ≡ false
        → run_chunks host ctx run_ path body iteration css w ≡ chunk_ (concat css) w
    unfolding run_chunks run_chunk ◌>>=◌ concat
    chunks_same [] w off = refl
    chunks_same (c ∷ css) w off =
        let next : List ItemResult → Exec S (List ItemResult) = λ rs.
          run_chunks host ctx run_ path body iteration css >>= λ (rest : List ItemResult).
          give (rs ⧺ rest) in
        sym (if_off ctx.cancel (give []) (chunk_ c >>= next) w off)
        ∙ same_after (chunk_ c w) next (join_chunk (concat css)) (λ rs u.
          ap
            (λ (o : Answer S (List ItemResult)).
              and_then_run o λ (rest : List ItemResult). give (rs ⧺ rest))
            (chunks_same css u off))
        ∙ sym (append_chunk c (concat css) w)

    chunks_cancelled :
        (css : List (List Prepared)) (w : RunWorld S)
        → ctx.cancel ≡ true
        → run_chunks host ctx run_ path body iteration css w ≡ give [] w
    unfolding run_chunks
    chunks_cancelled [] w on = refl
    chunks_cancelled (c ∷ css) w on = if_on ctx.cancel (give []) _ w on

    serial_cancelled :
        (base : Ledger) (i : ℕ) (vs : List Value) (w : RunWorld S)
        → ctx.cancel ≡ true
        → serial_ base i vs w ≡ give [] w
    unfolding serial_items
    serial_cancelled base i [] w on = refl
    serial_cancelled base i (v ∷ vs) w on = if_on ctx.cancel (give []) _ w on

    prepare_ok :
        (base : Ledger) (i : ℕ) (vs : List Value)
        → All
            (λ (v : Value).
              is_ok (resolve_bindings host.from_str (with_item_as base item_as v) inputs) ≡ true)
            vs
        → (prepared : List Prepared) × (prepare host ctx run_ item_as body base i vs ≡ ok prepared)
    unfolding prepare
    prepare_ok base i [] h = ([], refl)
    prepare_ok base i (v ∷ vs) h =
        elim (Result-cases (resolve_bindings host.from_str (with_item_as base item_as v) inputs)) [
          | inl (args, there) ↦
              let (rest, later) = prepare_ok base (suc i) vs h.1 in
              ((i, with_item_as base item_as v, args) ∷ rest, rw (there, later) refl)
          | inr (x, failed) ↦ absurd (cc (rw failed at h.0))
        ]

    -- If the inputs of the body resolve for every item, a map that is dispatched in parallel, in
    -- chunks of any width, returns what the serial loop returns and leaves the same ledger, events
    -- and records, where the calls of the host are ready at their first poll.
    pub execute_map_parallel_lem :
        (items : List Value) (width : ℕ) (w : RunWorld S)
        → All
            (λ (v : Value).
              is_ok (resolve_bindings host.from_str (with_item_as w.0 item_as v) inputs) ≡ true)
            items
        → execute_map_parallel host ctx run_ path item_as body items width iteration w
          ≡ execute_map_serial host ctx run_ path item_as body items iteration w
    unfolding execute_map_parallel execute_map_serial ◌>>=◌ the_ledger try_ledger
    execute_map_parallel_lem items width w h =
        let (prepared, e) = prepare_ok w.0 0 items h in
        rw e (elim (Bool-cases ctx.cancel) [
          | inl on ↦
              chunks_cancelled (chunks width prepared) w on
              ∙ sym (serial_cancelled w.0 0 items w on)
          | inr off ↦
              chunks_same (chunks width prepared) w off
              ∙ ap (λ (ps : List Prepared). chunk_ ps w) (concat-chunks width prepared)
              ∙ chunk_same w.0 0 items prepared w off e
        ])
