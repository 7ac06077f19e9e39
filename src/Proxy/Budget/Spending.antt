-- ===== src/Proxy/Budget/Spending.antt =====
-- What the requests that pass may cost, over all the reservations on one ledger.
use jesterky.Prelude.{
  All, ℕ, ◌+◌, ◌≤◌, ◌≡◌, refl, false, Option, none, some, List, [], ◌∷◌, String, str_eq, Result, ok,
  err, arith, length, if◌then◌else◌, inl, inr, Result-cases,
}
use Prim.Native.Nat.{min, ◌*◌}
use jesterky.F64.Integers.{max_u64}
use jesterky.Json.{Value, null, number, pos_int, object, bool, string, array}
use jesterky.Json.Object.{at_key, get-put}
use jesterky.Proxy.Files.{Bytes, not_found, Paths, Files, IsFileSystem, HasOwnName}
use jesterky.Proxy.Budget.Defs.{
  BudgetConfig, Ledger, Charge, Stop, set_key, media, output_tokens, charge_of, cap_micros, over,
  reserve, admit,
}
use jesterky.Proxy.Budget.Media.{mentions, media_keys, text_only}
use jesterky.Proxy.Budget.Steps.{Covers, KeepsCounts, tokens_of, charge_or, Leaves, reserve-Leaves}

abbrev pub total_micros : List Charge → ℕ
total_micros [] = 0
total_micros (charge ∷ charges) = total_micros charges + charge.micros

abbrev pub total_tokens : List Charge → ℕ
total_tokens [] = 0
total_tokens (charge ∷ charges) = total_tokens charges + tokens_of charge

abbrev pub no_charge : Charge
no_charge = record { micros = 0; input = 0; output = 0 }

-- The charge of a request that passes.
abbrev pub granted : Charge → Result Stop Value → List Charge → List Charge
granted charge (ok v) charges = charge ∷ charges
granted charge (err e) charges = charges

module _ {D : Type 0} (files : Files D) (paths : Paths) (from_slice : Bytes → Result String Ledger)
    (ledger_to_vec : Ledger → Result String Bytes) (to_vec : Value → Result String Bytes)
    (c : BudgetConfig) where
  -- The disks and the charges of the requests that passed, by any number of processes with one
  -- configuration; the lock makes their reservations one after the other.
  pub data Run (d : D) : D → List Charge → Type 0 where
    starts : Run d d []
    reserves :
        {d' : D} {charges : List Charge} (payload : Value)
        → Run d d' charges
        → Run d (reserve files paths from_slice ledger_to_vec to_vec c payload d').1 (
            granted
              (charge_or no_charge (admit to_vec c payload))
              (reserve files paths from_slice ledger_to_vec to_vec c payload d').0
              charges)
    -- anything else that happens to the disk, but not to the ledger
    elsewhere :
        {d' : D} {charges : List Charge} (d'' : D)
        → files.read c.ledger_path d'' ≡ files.read c.ledger_path d'
        → Run d d' charges
        → Run d d'' charges

  abbrev Capped : List Charge → D → Type 0
  Capped charges d =
      Covers from_slice (total_micros charges) (total_tokens charges) (files.read c.ledger_path d)
      × (total_micros charges ≤ cap_micros c)
      × (over c.max_total_tokens (total_tokens charges) ≡ false)

  module _ (fs : IsFileSystem files paths c.ledger_path) (own : HasOwnName paths c.ledger_path)
      (codec : KeepsCounts from_slice ledger_to_vec) where
    granted-Capped :
        (charge : Charge) (charges : List Charge) (out : Result Stop Value × D) (d : D)
        → Capped charges d
        → Leaves files paths from_slice ledger_to_vec to_vec c fs own
            (total_micros charges)
            (total_tokens charges)
            charge
            out
        → Capped (granted charge out.0 charges) out.1
    granted-Capped charge charges (ok v, d') d h leaves = leaves
    granted-Capped charge charges (err e, d') d h leaves = (leaves, h.1, h.2)

    Run-Capped :
        {d d' : D} {charges : List Charge} → Capped [] d → Run d d' charges → Capped charges d'
    Run-Capped h starts = h
    Run-Capped h (reserves {d'} {charges} payload r) =
        let before = Run-Capped h r in
        granted-Capped (charge_or no_charge (admit to_vec c payload)) charges _ d' before (
          reserve-Leaves files paths from_slice ledger_to_vec to_vec c fs own codec
            (total_micros charges) (total_tokens charges) payload d' no_charge before.0)
    Run-Capped h (elsewhere {d'} {charges} d'' same r) =
        let before = Run-Capped h r in (rw same before.0, before.1, before.2)

    starts-Capped :
        (d : D)
        → files.read c.ledger_path d ≡ not_found
        → over c.max_total_tokens 0 ≡ false
        → Capped [] d
    starts-Capped d fresh limit = (rw fresh (refl, refl), omega arith, limit)

  nothing_over : (limit : Option ℕ) → over limit 0 ≡ false
  nothing_over none = refl
  nothing_over (some limit) = ground arith

  -- Where no ledger is there at first, the requests that pass are charged no more micro-dollars in
  -- all than the spending cap, and no more tokens than the token limit, where there is one;
  -- whatever fails on the way, for a file system that reads what it wrote, a ledger whose extension
  -- is neither `pending` nor `lock`, and whose counts survive being written and read.
  pub spending_capped :
      IsFileSystem files paths c.ledger_path
      → HasOwnName paths c.ledger_path
      → KeepsCounts from_slice ledger_to_vec
      → (d d' : D) (charges : List Charge) → files.read c.ledger_path d ≡ not_found
      → Run d d' charges
      → (total_micros charges ≤ cap_micros c)
        × (over c.max_total_tokens (total_tokens charges) ≡ false)
  spending_capped fs own codec d d' charges fresh r =
      let h =
        Run-Capped fs own codec
          (starts-Capped fs own codec d fresh (nothing_over c.max_total_tokens)) r in
      (h.1, h.2)

at_key-set_key :
    (k j : String) (v payload set : Value)
    → set_key k v payload ≡ ok set
    → at_key j set ≡ (if str_eq k j then v else at_key j payload)
at_key-set_key k j v (object m) set e = ground (arith, get-put k j v m)
at_key-set_key k j v null set e = ground arith
at_key-set_key k j v (bool b) set e = cc
at_key-set_key k j v (number n) set e = cc
at_key-set_key k j v (string s) set e = cc
at_key-set_key k j v (array vs) set e = cc

-- The steps that an admitted request has passed.
admit_parts :
    (to_vec : Value → Result String Bytes) (c : BudgetConfig) (payload limited : Value)
    (charge : Charge)
    → admit to_vec c payload ≡ ok (limited, charge)
    → (raw : Bytes) × (to_vec payload ≡ ok raw)
      × (media (at_key "messages" payload) ≡ false)
      × (length raw ≤ c.max_request_bytes)
      × (set_key "max_tokens" (number (pos_int (output_tokens c payload))) payload ≡ ok limited)
      × (charge_of c (length raw) (output_tokens c payload) ≡ charge)
unfolding admit
admit_parts to_vec c payload limited charge e = elim (Result-cases (to_vec payload)) [
  | inr (f, bad) ↦ absurd (ground (arith, bad, e))
  | inl (raw, written) ↦
      elim (Result-cases
        (set_key "max_tokens" (number (pos_int (output_tokens c payload))) payload)) [
          | inr (f, bad) ↦ absurd (ground (arith, written, bad, e))
          | inl (set, done) ↦ (
            raw,
            written,
            ground (arith, written, done, e),
            ground (arith, written, done, e),
            ground (arith, written, done, e),
            ground (arith, written, done, e),
          )
        ]
]

charge_bounds :
    (c : BudgetConfig) (payload : Value) (n : ℕ)
    → let charge = charge_of c n (output_tokens c payload) in
      (charge.output ≡ output_tokens c payload)
      × (charge.output ≤ c.max_output_tokens)
      × (min (2 * n) max_u64 ≤ charge.input)
unfolding charge_of output_tokens
charge_bounds c payload n = (refl, omega arith, omega arith)

-- A request that is admitted has messages without media, that is, without an `image_url`,
-- `input_audio`, `audio` or `video_url` at any depth, and, serialised, a length within the limit;
-- it goes on with its `max_tokens` set to what it is charged for, which is at most the configured
-- maximum, and all else as it was; and the input that it is charged for is at least twice its
-- length, up to the largest `u64`.
pub admit_ok :
    (to_vec : Value → Result String Bytes) (c : BudgetConfig) (payload limited : Value)
    (charge : Charge)
    → admit to_vec c payload ≡ ok (limited, charge)
    → (raw : Bytes) × (to_vec payload ≡ ok raw)
      × (media (at_key "messages" payload) ≡ false)
      × All (λ k. mentions k (at_key "messages" payload) ≡ false) media_keys
      × (length raw ≤ c.max_request_bytes)
      × ((k : String)
          → at_key k limited
            ≡ (if str_eq "max_tokens" k then number (pos_int charge.output) else at_key k payload))
      × (charge.output ≤ c.max_output_tokens)
      × (min (2 * length raw) max_u64 ≤ charge.input)
admit_ok to_vec c payload limited charge e =
    let (raw, written, plain, fits, set, made) = admit_parts to_vec c payload limited charge e in
    let (same, within, covered) = charge_bounds c payload (length raw) in
    (
      raw,
      written,
      plain,
      text_only (at_key "messages" payload) plain,
      fits,
      λ k. rw (← made, same) (at_key-set_key "max_tokens" k _ payload limited set),
      rw (← made) within,
      rw (← made) covered,
    )
