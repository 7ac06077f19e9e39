-- ===== src/Proxy/Budget/Steps.antt =====
-- What one reservation leaves in the ledger.
use jesterky.Prelude.{
  ok_inj, ap, ℕ, ◌+◌, ◌≤◌, ◌≡◌, refl, ◌∙◌, ◌⊎◌, inl, inr, false, Option, none, some, String, Result,
  ok, err, ok_or, arith, Result-cases,
}
use jesterky.Json.{Value}
use jesterky.Proxy.Files.{
  FilePath, Bytes, Read, found, not_found, failed, Paths, Files, IsFileSystem, HasOwnName,
}
use jesterky.Proxy.Budget.Defs.{
  BudgetConfig, Ledger, Charge, Stop, message, ledger_of, lift, step, pass, charged, cap_micros,
  over, store_ledger, reserve, reserve_locked, admit,
}

-- The ledger, if it can be read, has at least these micros and tokens.
abbrev pub Covers : (Bytes → Result String Ledger) → ℕ → ℕ → Read → Type 0
Covers from_slice micros tokens (found raw) =
    (l : Ledger)
    → from_slice raw ≡ ok l
    → (micros ≤ l.reserved_micros) × (tokens ≤ l.reserved_tokens)
Covers from_slice micros tokens not_found = (micros ≡ 0) × (tokens ≡ 0)
Covers from_slice micros tokens (failed e) = Unit

-- The counts of a ledger survive being written and read.
abbrev pub KeepsCounts : (Bytes → Result String Ledger) → (Ledger → Result String Bytes) → Type 0
KeepsCounts from_slice ledger_to_vec =
    (l l' : Ledger) (raw : Bytes)
    → ledger_to_vec l ≡ ok raw
    → from_slice raw ≡ ok l'
    → (l'.reserved_micros ≡ l.reserved_micros) × (l'.reserved_tokens ≡ l.reserved_tokens)

abbrev pub tokens_of : Charge → ℕ
tokens_of charge = charge.input + charge.output

-- What a charged ledger has: the sums, within the caps.
pub charged_sums :
    (paths : Paths) (c : BudgetConfig) (charge : Charge) (l next : Ledger)
    → charged paths c charge l ≡ ok next
    → (next.reserved_micros ≡ l.reserved_micros + charge.micros)
      × (next.reserved_micros ≤ cap_micros c)
      × (next.reserved_tokens ≡ l.reserved_tokens + tokens_of charge)
      × (over c.max_total_tokens next.reserved_tokens ≡ false)
unfolding charged
charged_sums paths c charge l next e = ground arith

pub Covers-ledger_of :
    (from_slice : Bytes → Result String Ledger) (c : BudgetConfig) (m t : ℕ) (r : Read) (l : Ledger)
    → Covers from_slice m t r
    → ledger_of from_slice c r ≡ ok l
    → (m ≤ l.reserved_micros) × (t ≤ l.reserved_tokens)
Covers-ledger_of from_slice c m t (found raw) l h e = elim (Result-cases (from_slice raw)) [
  | inl (l', e') ↦ h l (ground (arith, e', e))
  | inr (f, e') ↦ absurd (ground (arith, e', e))
]
Covers-ledger_of from_slice c m t not_found l h e = ground (arith, h.0, h.1)
Covers-ledger_of from_slice c m t (failed f) l h e = cc

is_ok_or : {E A : Type 0} (o : Option A) (e : E) (a : A) → ok_or o e ≡ ok a → o ≡ some a
is_ok_or (some b) e a h = ap some (ok_inj h)
is_ok_or none e a h = cc

-- A request that is refused is not charged; one that passes the tests of its payload is charged
-- for what they found.
abbrev pub charge_or : Charge → Result Stop (Value × Charge) → Charge
charge_or none_made (ok (v, charge)) = charge
charge_or none_made (err e) = none_made

module _ {D A : Type 0} (P : Result Stop A × D → Type 0) where
  -- How a step on the disk ends: with its error, or as the rest does.
  pub step_rule :
      (m : Result String Unit × D) (rest : D → Result Stop A × D)
      → ((e : String) → P (err (message e), m.1))
      → (m.0 ≡ ok tt → P (rest m.1))
      → P (step m rest)
  step_rule (ok u, d) rest stops goes = goes refl
  step_rule (err e, d) rest stops goes = stops e

  pub pass_rule :
      {B : Type 0} (r : Result Stop B) (d : D) (rest : B → Result Stop A × D)
      → ((e : Stop) → P (err e, d))
      → ((b : B) → r ≡ ok b → P (rest b))
      → P (pass r d rest)
  pass_rule (ok b) d rest stops goes = goes b refl
  pass_rule (err e) d rest stops goes = stops e

module _ {D : Type 0} (files : Files D) (paths : Paths) (from_slice : Bytes → Result String Ledger)
    (ledger_to_vec : Ledger → Result String Bytes) (to_vec : Value → Result String Bytes)
    (c : BudgetConfig) (fs : IsFileSystem files paths c.ledger_path)
    (own : HasOwnName paths c.ledger_path) where
  abbrev reads : D → Read
  reads d = files.read c.ledger_path d

  abbrev staged : FilePath
  staged = paths.with_extension c.ledger_path "pending"

  -- How a store ends: the old file or the new one is there, and the new one if it succeeds.
  abbrev Stored : Read → Bytes → Result Stop Value × D → Type 0
  Stored old raw (ok v, d) = reads d ≡ found raw
  Stored old raw (err e, d) = (reads d ≡ old) ⊎ (reads d ≡ found raw)

  parent_synced :
      (old : Read) (raw : Bytes) (parent : FilePath) (payload : Value) (d : D)
      → reads d ≡ found raw
      → Stored old raw (step (files.sync parent d) λ d. (ok payload, d))
  parent_synced old raw parent payload d h =
      let there = fs.sync_keeps c.ledger_path parent d ∙ h in
      step_rule (Stored old raw) (files.sync parent d) (λ d. (ok payload, d)) (λ e. inr there)
        (λ o. there)

  renamed :
      (old : Read) (raw : Bytes) (parent : FilePath) (payload : Value) (d : D)
      → reads d ≡ old
      → files.read staged d ≡ found raw
      → Stored old raw (
          step
            (files.rename staged c.ledger_path d)
            λ d. step (files.sync parent d) λ d. (ok payload, d))
  renamed old raw parent payload d h written =
      step_rule (Stored old raw) (files.rename staged c.ledger_path d)
        (λ d. step (files.sync parent d) λ d. (ok payload, d))
        (λ e. elim (fs.rename_fails d) [
          | inl same ↦ inl (same ∙ h)
          | inr new ↦ inr (new ∙ written)
        ])
        (λ o. parent_synced old raw parent payload _ (fs.rename_replaces d o ∙ written))

  store_ledger-Stored :
      (parent : FilePath) (payload : Value) (raw : Bytes) (d : D)
      → Stored
          (reads d)
          raw
          (store_ledger files paths from_slice ledger_to_vec to_vec c parent payload raw d)
  unfolding store_ledger
  store_ledger-Stored parent payload raw d =
      step_rule (Stored (reads d) raw) (files.write staged raw d) _
        (λ e. inl (fs.write_keeps raw d own.0))
        (λ o.
          let written = (files.write staged raw d).1 in
          let same = fs.sync_keeps c.ledger_path staged written ∙ fs.write_keeps raw d own.0 in
          step_rule (Stored (reads d) raw) (files.sync staged written) _ (λ e. inl same)
            (λ o'.
              renamed (reads d) raw parent payload _ same
                (fs.sync_keeps staged staged written ∙ fs.write_reads raw d o)))

  -- What a reservation leaves, where the ledger covered the charges so far: it covers the new one
  -- too if the request passes, and then the sums are within the caps.
  abbrev pub Leaves : ℕ → ℕ → Charge → Result Stop Value × D → Type 0
  Leaves m t charge (ok v, d) =
      Covers from_slice (m + charge.micros) (t + tokens_of charge) (reads d)
      × (m + charge.micros ≤ cap_micros c)
      × (over c.max_total_tokens (t + tokens_of charge) ≡ false)
  Leaves m t charge (err e, d) = Covers from_slice m t (reads d)

  over_lower : (limit : Option ℕ) (a b : ℕ) → a ≤ b → over limit b ≡ false → over limit a ≡ false
  over_lower none a b h o = refl
  over_lower (some limit) a b h o = ground arith

  Covers-found :
      (m t : ℕ) (raw : Bytes) (r : Read)
      → r ≡ found raw
      → Covers from_slice m t (found raw)
      → Covers from_slice m t r
  Covers-found m t raw r e h = rw e h

  Stored-Leaves :
      (m t : ℕ) (charge : Charge) (old : Read) (raw : Bytes) (out : Result Stop Value × D)
      → Covers from_slice m t old
      → Covers from_slice (m + charge.micros) (t + tokens_of charge) (found raw)
      → m + charge.micros ≤ cap_micros c
      → over c.max_total_tokens (t + tokens_of charge) ≡ false
      → Stored old raw out
      → Leaves m t charge out
  Stored-Leaves m t charge old raw (ok v, d) before after cap limit s = (rw s after, cap, limit)
  Stored-Leaves m t charge old raw (err e, d) before after cap limit (inl s) = rw s before
  Stored-Leaves m t charge old raw (err e, d) before after cap limit (inr s) =
      rw s (λ l h. let (p, q) = after l h in (omega arith, omega arith))

  stores_next :
      KeepsCounts from_slice ledger_to_vec
      → (m t : ℕ) (charge : Charge) (l next : Ledger) (raw : Bytes) (parent : FilePath)
        (payload : Value) (d : D)
      → Covers from_slice m t (reads d)
      → (m ≤ l.reserved_micros) × (t ≤ l.reserved_tokens)
      → charged paths c charge l ≡ ok next
      → ledger_to_vec next ≡ ok raw
      → Leaves m t charge
          (store_ledger files paths from_slice ledger_to_vec to_vec c parent payload raw d)
  stores_next codec m t charge l next raw parent payload d covers less e written =
      let (micros, cap, tokens, limit) = charged_sums paths c charge l next e in
      Stored-Leaves m t charge (reads d) raw _ covers
        (λ l' read.
          let (p, q) = codec next l' raw written read in
          (omega (arith, p, less.0), omega (arith, q, less.1)))
        (omega (arith, less.0))
        (over_lower c.max_total_tokens (t + tokens_of charge) next.reserved_tokens
          (omega (arith, less.1)) limit)
        (store_ledger-Stored parent payload raw d)

  lifted : {A : Type 0} (r : Result String A) (a : A) → lift r ≡ ok a → r ≡ ok a
  lifted (ok b) a h = cc
  lifted (err e) a h = cc

  reserve_locked-Leaves :
      KeepsCounts from_slice ledger_to_vec
      → (m t : ℕ) (charge : Charge) (parent : FilePath) (payload : Value) (d : D)
      → Covers from_slice m t (reads d)
      → Leaves m t charge
          (reserve_locked files paths from_slice ledger_to_vec to_vec c parent payload charge d)
  unfolding reserve_locked
  reserve_locked-Leaves codec m t charge parent payload d covers =
      pass_rule (Leaves m t charge) (ledger_of from_slice c (reads d)) d _ (λ e. covers)
        (λ l known.
          pass_rule (Leaves m t charge) (charged paths c charge l) d _ (λ e. covers)
            (λ next e.
              pass_rule (Leaves m t charge) (lift (ledger_to_vec next)) d _ (λ e'. covers)
                (λ raw written.
                  stores_next codec m t charge l next raw parent payload d covers
                    (Covers-ledger_of from_slice c m t (reads d) l covers known) e
                    (lifted (ledger_to_vec next) raw written))))

  pub reserve-Leaves :
      KeepsCounts from_slice ledger_to_vec
      → (m t : ℕ) (payload : Value) (d : D) (no_charge : Charge) → Covers from_slice m t (reads d)
      → Leaves m t
          (charge_or no_charge (admit to_vec c payload))
          (reserve files paths from_slice ledger_to_vec to_vec c payload d)
  unfolding reserve
  reserve-Leaves codec m t payload d no_charge covers =
      elim (Result-cases (admit to_vec c payload)) [
        | inl ((v, charge), e) ↦ rw e (
            pass_rule (Leaves m t charge)
              (ok_or (paths.parent c.ledger_path) (message "budget ledger has no directory")) d _
              (λ e'. covers)
              (λ parent known.
                step_rule (Leaves m t charge) (files.create_dir_all parent d) _
                  (λ e'.
                    rw
                      (fs.dir_keeps parent d (is_ok_or (paths.parent c.ledger_path) _ parent known))
                      covers)
                  (λ o.
                    let made = (files.create_dir_all parent d).1 in
                    let lock = paths.with_extension c.ledger_path "lock" in
                    let same =
                      fs.lock_keeps made own.1
                      ∙ fs.dir_keeps parent d
                          (is_ok_or (paths.parent c.ledger_path) _ parent known) in
                    step_rule (Leaves m t charge) (files.lock lock made) _ (λ e'. rw same covers)
                      (λ o'. reserve_locked-Leaves codec m t charge parent v _ (rw same covers)))))
        | inr (e, e') ↦ rw e' covers
      ]
