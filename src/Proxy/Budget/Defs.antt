-- ===== src/Proxy/Budget/Defs.antt =====
-- The ledger of reservations and `Budget::reserve`. A `u64` is a number below 2^64.
use Prim.Native.Nat.{min}
use jesterky.Prelude.{
  ℕ, ◌+◌, ◌*◌, ◌%◌, ◌^◌, Bool, true, false, not, ◌&&◌, ◌||◌, Option, none, some, [], ◌∷◌, String,
  ltb, leb, ◌==◌, str_eq, if◌then◌else◌, length, any, unwrap_or, Result, ok, err, ok_or,
}
use jesterky.Prelude.{◌>>=◌}
use jesterky.F64.{F64, zero_f64, f64_of, f64_mul, f64_add, f64_le, f64_lt, f64_eq, is_finite}
use jesterky.F64.Integers.{ceil_u64, floor_u64, max_u64}
use jesterky.Json.{
  Value, Values, Members, null, bool, number, string, array, object, nil, cons, empty, member,
  as_u64, pos_int,
}
use jesterky.Json.Object.{at_key, put}
use jesterky.Proxy.Files.{FilePath, Bytes, Read, found, not_found, failed, Paths, Files}

pub record BudgetConfig : Type 0 where
  pub max_cost_usd : F64
  pub input_usd_per_million : F64
  pub output_usd_per_million : F64
  pub max_output_tokens : ℕ
  pub max_request_bytes : ℕ
  pub max_total_tokens : Option ℕ
  pub ledger_path : FilePath

pub record Ledger : Type 0 where
  pub config : BudgetConfig
  pub reserved_micros : ℕ
  pub requests : ℕ
  pub reserved_tokens : ℕ

-- An error text, or a panic of `payload["max_tokens"] = ..`.
pub data Stop : Type 0 where
  message : String → Stop
  panic : Stop

abbrev option_eq : Option ℕ → Option ℕ → Bool
option_eq none none = true
option_eq (some a) (some b) = a == b
option_eq none (some b) = false
option_eq (some a) none = false

-- `#[derive(PartialEq)]`
unfoldable pub config_eq : Paths → BudgetConfig → BudgetConfig → Bool
config_eq paths a b =
    f64_eq a.max_cost_usd b.max_cost_usd
    && f64_eq a.input_usd_per_million b.input_usd_per_million
    && f64_eq a.output_usd_per_million b.output_usd_per_million
    && a.max_output_tokens == b.max_output_tokens
    && a.max_request_bytes == b.max_request_bytes
    && option_eq a.max_total_tokens b.max_total_tokens
    && paths.path_eq a.ledger_path b.ledger_path

abbrev is_zero : Option ℕ → Bool
is_zero none = false
is_zero (some n) = n == 0

abbrev is_bad_price : F64 → Bool
is_bad_price v = not (is_finite v) || f64_le v zero_f64

abbrev new_error : String
new_error =
    "proxy budget requires finite positive prices/cap, bounded tokens/body, and an absolute ledger path"

unfoldable pub new_budget : Paths → BudgetConfig → Result String BudgetConfig
new_budget paths c =
    if any is_bad_price (c.max_cost_usd ∷ c.input_usd_per_million ∷ c.output_usd_per_million ∷ [])
      || is_zero c.max_total_tokens
      || f64_lt (f64_of 10000) c.max_cost_usd
      || c.max_output_tokens == 0
      || ltb 32768 c.max_output_tokens
      || c.max_request_bytes == 0
      || ltb (1024 * 1024) c.max_request_bytes
      || not (paths.is_absolute c.ledger_path)
    then err new_error
    else ok c

abbrev pub is_media_key : String → Bool
is_media_key k =
    str_eq k "image_url" || str_eq k "input_audio" || str_eq k "audio" || str_eq k "video_url"

abbrev pub any_media_key : Members → Bool
any_media_key empty = false
any_media_key (member k v m) = is_media_key k || any_media_key m

unfoldable mutual
  pub media : Value → Bool
  media null = false
  media (bool b) = false
  media (number n) = false
  media (string s) = false
  media (array vs) = any_media vs
  media (object m) = any_media_key m || any_member_media m

  pub any_media : Values → Bool
  any_media nil = false
  any_media (cons v vs) = media v || any_media vs

  pub any_member_media : Members → Bool
  any_member_media empty = false
  any_member_media (member k v m) = media v || any_member_media m

-- `payload[key] = v`
abbrev pub set_key : String → Value → Value → Result Stop Value
set_key k v (object m) = ok (object (put k v m))
set_key k v null = ok (object (member k v empty))
set_key k v _ = err panic

abbrev pub check : Bool → String → Result Stop Unit
check true e = ok tt
check false e = err (message e)

-- `a.checked_add(b)`
abbrev pub checked_add : ℕ → ℕ → Option ℕ
checked_add a b = if leb (a + b) max_u64 then some (a + b) else none

abbrev pub lift : {A : Type 0} → Result String A → Result Stop A
lift (ok a) = ok a
lift (err e) = err (message e)

abbrev pub over : Option ℕ → ℕ → Bool
over none tokens = false
over (some limit) tokens = ltb limit tokens

-- The tokens that a request is charged: of its text, and of its answer.
pub record Charge : Type 0 where
  pub micros : ℕ
  pub input : ℕ
  pub output : ℕ

-- `n.saturating_mul(2).saturating_add(8192)`
abbrev input_tokens : ℕ → ℕ
input_tokens bytes = min (min (bytes * 2) max_u64 + 8192) max_u64

unfoldable pub charge_of : BudgetConfig → ℕ → ℕ → Charge
charge_of c bytes output =
    let input = input_tokens bytes in
    record {
      micros = ceil_u64 (
          f64_add (f64_mul (f64_of input) c.input_usd_per_million)
            (f64_mul (f64_of output) c.output_usd_per_million));
      input = input;
      output = output;
    }

unfoldable pub cap_micros : BudgetConfig → ℕ
cap_micros c = floor_u64 (f64_mul c.max_cost_usd (f64_of 1000000))

-- The length of `payload` serialised, and the output tokens that it may have.
unfoldable pub output_tokens : BudgetConfig → Value → ℕ
output_tokens c payload =
    min (unwrap_or (as_u64 (at_key "max_tokens" payload)) c.max_output_tokens) c.max_output_tokens

-- The first half of `reserve`, on the payload alone: the payload with its ceiling, and the charge.
unfoldable pub admit :
    (Value → Result String Bytes) → BudgetConfig → Value → Result Stop (Value × Charge)
unfolding charge_of output_tokens
admit to_vec c payload = do
  text_only ←
      check (not (media (at_key "messages" payload)))
        "budgeted annotation proxy accepts text-only evidence"
  raw ← lift (to_vec payload)
  fits ←
      check (leb (length raw) c.max_request_bytes) "annotation request exceeds budgeted body limit"
  let output = output_tokens c payload
  limited ← set_key "max_tokens" (number (pos_int output)) payload
  ok (limited, charge_of c (length raw) output)

-- `ledger` with the charge, where the caps allow it.
unfoldable pub charged : Paths → BudgetConfig → Charge → Ledger → Result Stop Ledger
unfolding config_eq cap_micros
charged paths c charge ledger = do
  same ←
      check (config_eq paths ledger.config c) "budget configuration changed for an existing ledger"
  micros ← ok_or (checked_add ledger.reserved_micros charge.micros) (message "budget overflow")
  spends ←
      check (leb micros (cap_micros c)) "annotation spending limit reached before provider request"
  with_input ←
      ok_or (checked_add ledger.reserved_tokens charge.input) (message "token budget overflow")
  tokens ← ok_or (checked_add with_input charge.output) (message "token budget overflow")
  used ←
      check (not (over c.max_total_tokens tokens))
        "annotation token limit reached before provider request"
  ok (record ledger {
    reserved_tokens = tokens;
    reserved_micros = micros;
    requests = (ledger.requests + 1) % 2 ^ 64;
  })

abbrev pub fresh_ledger : BudgetConfig → Ledger
fresh_ledger c = record { config = c; reserved_micros = 0; requests = 0; reserved_tokens = 0 }

abbrev pub ledger_of : (Bytes → Result String Ledger) → BudgetConfig → Read → Result Stop Ledger
ledger_of from_slice c (found raw) = lift (from_slice raw)
ledger_of from_slice c not_found = ok (fresh_ledger c)
ledger_of from_slice c (failed e) = err (message e)

-- A step on the disk; the rest runs if it succeeds.
abbrev pub step :
    {D : Type 0} {A : Type 0} → Result String Unit × D → (D → Result Stop A × D) → Result Stop A × D
step (ok u, d) next = next d
step (err e, d) next = (err (message e), d)

abbrev pub pass :
    {D : Type 0} {B : Type 0} {A : Type 0}
    → Result Stop B
    → D
    → (B → Result Stop A × D)
    → Result Stop A × D
pass (ok b) d next = next b
pass (err e) d next = (err e, d)

module _ {D : Type 0} (files : Files D) (paths : Paths) (from_slice : Bytes → Result String Ledger)
    (ledger_to_vec : Ledger → Result String Bytes) (to_vec : Value → Result String Bytes)
    (c : BudgetConfig) where
  abbrev pub staged_path : FilePath
  staged_path = paths.with_extension c.ledger_path "pending"

  -- The staged file, its rename, and the two `sync_all`.
  unfoldable pub store_ledger : FilePath → Value → Bytes → D → Result Stop Value × D
  store_ledger parent payload raw d = step (files.write staged_path raw d) λ d.
      step (files.sync staged_path d) λ d.
        step (files.rename staged_path c.ledger_path d)
          λ d. step (files.sync parent d) λ d. (ok payload, d)

  -- From the lock on.
  unfoldable pub reserve_locked : FilePath → Value → Charge → D → Result Stop Value × D
  unfolding charged store_ledger
  reserve_locked parent payload charge d =
      pass (ledger_of from_slice c (files.read c.ledger_path d)) d λ ledger.
        pass (charged paths c charge ledger) d
          λ next. pass (lift (ledger_to_vec next)) d λ raw. store_ledger parent payload raw d

  -- `Budget::reserve`: the payload as a reservation leaves it, or the error.
  unfoldable pub reserve : Value → D → Result Stop Value × D
  unfolding admit reserve_locked
  reserve payload d = pass (admit to_vec c payload) d λ admitted.
      pass (ok_or (paths.parent c.ledger_path) (message "budget ledger has no directory")) d
        λ parent. step (files.create_dir_all parent d) λ d.
          step (files.lock (paths.with_extension c.ledger_path "lock") d)
            λ d. reserve_locked parent admitted.0 admitted.1 d
