-- ===== src/Proxy/Server/Spent.antt =====
-- The spending cap, over all that a server with a budget sends to its provider.
use jesterky.Prelude.{
  ◌≤◌, ◌≡◌, refl, sym, ap, ◌∙◌, ◌⊎◌, inl, inr, false, some, List, [], ◌∷◌, String, Result, ok, err,
  Result-cases, ok_or,
}
use jesterky.Json.{Value}
use jesterky.Proxy.Files.{Bytes, FilePath, not_found, IsFileSystem, HasOwnName}
use jesterky.Proxy.Budget.Defs.{
  BudgetConfig, Charge, Stop, message, reserve, reserve_locked, store_ledger, admit, charged, pass,
  step, ledger_of, lift, over, cap_micros,
}
use jesterky.Proxy.Budget.Steps.{KeepsCounts, charge_or}
use jesterky.Proxy.Budget.Spending.{
  Run, starts, reserves, granted, no_charge, total_micros, total_tokens, spending_capped,
}
use jesterky.Proxy.Server.Handle.{reserve_if, reserved, handle_connection}
use jesterky.Proxy.Server.State.{Answer, ServerState, Shared, Outside, Incoming}
use jesterky.Proxy.Server.Sends.{sent_by, Leaves, Outcome, handle_connection_lem}

module _ {D : Type 0} (o : Outside D) (c : BudgetConfig) where
  -- The payload that passes is the one that was admitted.
  Passes : Value → Result Stop Value × D → Type 0
  Passes v (ok v', d) = v' ≡ v
  Passes v (err e, d) = Unit

  Passes-step :
      (v : Value) (m : Result String Unit × D) (rest : D → Result Stop Value × D)
      → ((d : D) → Passes v (rest d))
      → Passes v (step m rest)
  unfolding Passes
  Passes-step v (ok u, d) rest h = h d
  Passes-step v (err e, d) rest h = tt

  Passes-pass :
      {B : Type 0} (v : Value) (r : Result Stop B) (d : D) (rest : B → Result Stop Value × D)
      → ((b : B) → Passes v (rest b))
      → Passes v (pass r d rest)
  unfolding Passes
  Passes-pass v (ok b) d rest h = h b
  Passes-pass v (err e) d rest h = tt

  ends : (v : Value) (d : D) → Passes v (ok v, d)
  unfolding Passes
  ends v d = refl

  abbrev staged : FilePath
  staged = o.paths.with_extension c.ledger_path "pending"

  stored-Passes :
      (parent : FilePath) (v : Value) (raw : Bytes) (d : D)
      → Passes v (
          store_ledger o.files o.paths o.ledger_from_slice o.ledger_to_vec o.to_vec c parent v raw
            d)
  unfolding store_ledger
  stored-Passes parent v raw d = Passes-step v (o.files.write staged raw d) _ λ d1.
      Passes-step v (o.files.sync staged d1) _ λ d2.
        Passes-step v (o.files.rename staged c.ledger_path d2) _
          λ d3. Passes-step v (o.files.sync parent d3) _ λ d4. ends v d4

  locked-Passes :
      (parent : FilePath) (v : Value) (charge : Charge) (d : D)
      → Passes v (
          reserve_locked o.files o.paths o.ledger_from_slice o.ledger_to_vec o.to_vec c parent v
            charge d)
  unfolding reserve_locked
  locked-Passes parent v charge d =
      Passes-pass v (ledger_of o.ledger_from_slice c (o.files.read c.ledger_path d)) d _ λ l.
        Passes-pass v (charged o.paths c charge l) d _ λ next.
          Passes-pass v (lift (o.ledger_to_vec next)) d _ λ raw. stored-Passes parent v raw d

  abbrev AdmittedAs : Result Stop (Value × Charge) → Result Stop Value × D → Type 0
  AdmittedAs (ok (v, charge)) out = Passes v out
  AdmittedAs (err e) out = out.0 ≡ err e

  reserve_passes :
      (payload : Value) (d : D)
      → AdmittedAs
          (admit o.to_vec c payload)
          (reserve o.files o.paths o.ledger_from_slice o.ledger_to_vec o.to_vec c payload d)
  unfolding reserve
  reserve_passes payload d = elim (Result-cases (admit o.to_vec c payload)) [
    | inr (f, e) ↦ rw e refl
    | inl ((v, charge), e) ↦ rw e (
        Passes-pass v
          (ok_or (o.paths.parent c.ledger_path) (message "budget ledger has no directory")) d _
          λ parent. Passes-step v (o.files.create_dir_all parent d) _ λ d1.
            Passes-step v (o.files.lock (o.paths.with_extension c.ledger_path "lock") d1) _
              λ d2. locked-Passes parent v charge d2)
  ]

  -- Each payload sent is what a request was admitted as, with this charge.
  abbrev pub Paid : List Value → List Charge → Type 0
  Paid [] [] = Unit
  Paid (v ∷ sent) (charge ∷ charges) =
      ((payload : Value) × (admit o.to_vec c payload ≡ ok (v, charge))) × Paid sent charges
  Paid [] (charge ∷ charges) = ⊥
  Paid (v ∷ sent) [] = ⊥

  Paid-step :
      (payload : Value) (admitted : Result Stop (Value × Charge)) (out : Result Stop Value × D)
      (sent : List Value) (charges : List Charge)
      → admit o.to_vec c payload ≡ admitted
      → AdmittedAs admitted out
      → Paid sent charges
      → Paid (sent_by out.0 sent) (granted (charge_or no_charge admitted) out.0 charges)
  unfolding Passes
  Paid-step payload (ok (v, charge)) (ok v', d) sent charges e same paid =
      ((payload, e ∙ ap (λ x. ok (x, charge)) (sym same)), paid)
  Paid-step payload (ok (v, charge)) (err f, d) sent charges e same paid = paid
  Paid-step payload (err f) (ok v', d) sent charges e same paid = cc
  Paid-step payload (err f) (err f', d) sent charges e same paid = paid

module _ {D : Type 0} (o : Outside D) (state : ServerState) where
  -- The connections of a server, one after the other.
  pub data Served (s : Shared D) : Shared D → Type 0 where
    started : Served s s
    handles :
        {s' : Shared D} (incoming : Incoming)
        → Served s s'
        → Served s (handle_connection o state incoming s').1

  module _ (c : BudgetConfig) (budgeted : state.budget ≡ some c) where
    abbrev Ledgered : D → Shared D → Type 0
    Ledgered d s =
        (charges : List Charge) × Run o.files o.paths o.ledger_from_slice o.ledger_to_vec o.to_vec c
          d s.disk charges
        × Paid o c s.sent charges

    reserved_parts :
        (out : Result Stop Value × D) (sent : List Value)
        → ((reserved o state out).1 ≡ out.1)
          × (sent_by (reserved o state out).0 sent ≡ sent_by out.0 sent)
    reserved_parts (ok v, d) sent = (refl, refl)
    reserved_parts (err e, d) sent = (refl, refl)

    reserve_if_some :
        (payload : Value) (d : D)
        → reserve_if o state state.budget payload d
          ≡ reserved o state
              (reserve o.files o.paths o.ledger_from_slice o.ledger_to_vec o.to_vec c payload d)
    unfolding reserve_if
    reserve_if_some payload d = rw budgeted refl

    same_disk :
        (d : D) (s after : Shared D)
        → Ledgered d s
        → after.disk ≡ s.disk
        → after.sent ≡ s.sent
        → Ledgered d after
    same_disk d s after (charges, r, paid) disk sent = (charges, rw disk r, rw sent paid)

    Ledgered-step :
        (d : D) (s : Shared D) (after : Answer × Shared D)
        → Ledgered d s
        → Leaves o state s.disk s.sent after ⊎ Outcome o state s after
        → Ledgered d after.1
    Ledgered-step d s (a, after) l (inl same) = same_disk d s after l same.0 same.1
    Ledgered-step d s (a, after) l (inr (inl same)) = same_disk d s after l same.0 same.1
    Ledgered-step d s (a, after) (charges, r, paid) (inr (inr (payload, (disk, sent)))) =
        let made =
          reserve o.files o.paths o.ledger_from_slice o.ledger_to_vec o.to_vec c payload s.disk in
        let (same_disk, same_sent) = reserved_parts made s.sent in
        let as_made = reserve_if_some payload s.disk in
        let at : after.disk ≡ made.1 = disk ∙ (ap (λ out. out.1) as_made ∙ same_disk) in
        let by : after.sent ≡ sent_by made.0 s.sent =
          sent ∙ (ap (λ out. sent_by out.0 s.sent) as_made ∙ same_sent) in
        (
          granted (charge_or no_charge (admit o.to_vec c payload)) made.0 charges,
          rw at (reserves payload r),
          rw by (
              Paid-step o c payload (admit o.to_vec c payload) made s.sent charges refl
                (reserve_passes o c payload s.disk) paid),
        )

    Served-Ledgered : {s s' : Shared D} → s.sent ≡ [] → Served s s' → Ledgered s.disk s'
    Served-Ledgered none_sent started = ([], starts, rw none_sent tt)
    Served-Ledgered none_sent (handles {s'} incoming r) =
        Ledgered-step _ s' (handle_connection o state incoming s') (Served-Ledgered none_sent r)
          (elim (handle_connection_lem o state incoming s') [
            | inl same ↦ inl same
            | inr (who, out) ↦ inr out
          ])

  -- A server with a budget, whose connections are handled one after the other from no ledger and
  -- nothing sent, sends its provider payloads that were each admitted with a charge; these charges
  -- together stay within the spending cap, and within the token limit, where there is one. The
  -- file system reads what it wrote, the ledger's extension is neither `pending` nor `lock`, and
  -- its counts survive being written and read.
  pub sent_within_budget :
      (c : BudgetConfig) (s s' : Shared D)
      → state.budget ≡ some c
      → IsFileSystem o.files o.paths c.ledger_path
      → HasOwnName o.paths c.ledger_path
      → KeepsCounts o.ledger_from_slice o.ledger_to_vec
      → o.files.read c.ledger_path s.disk ≡ not_found
      → s.sent ≡ []
      → Served s s'
      → (charges : List Charge) × Paid o c s'.sent charges
        × (total_micros charges ≤ cap_micros c)
        × (over c.max_total_tokens (total_tokens charges) ≡ false)
  sent_within_budget c s s' budgeted fs own codec fresh none_sent served =
      let (charges, r, paid) = Served-Ledgered c budgeted none_sent served in
      let (micros, tokens) =
        spending_capped o.files o.paths o.ledger_from_slice o.ledger_to_vec o.to_vec c fs own codec
          s.disk s'.disk charges fresh r in
      (charges, paid, micros, tokens)
