-- ===== src/Tests/SpendingRuns.antt =====
-- A budget on a disk of two files, crates/jesterky-proxy/src/budget.rs.
use Prim.Native.Nat.{min}
use jesterky.Prelude.{
  All, true, ◌≢◌, eq_iff, ◌≡◌, ◌≤◌, ◌*◌, refl, inr, true, false, some, [], ◌∷◌, String, str_eq, ok,
  err, Result, if◌then◌else◌, subst, length,
}
use Prim.Native.String.{◌++◌ as ◌+++◌}
use jesterky.F64.{f64_of, f64_arithmetic, f64_eq}
use jesterky.F64.Integers.{max_u64, ceil_u64, floor_u64}
use jesterky.Json.{Value, string, number, object, empty, member, pos_int}
use jesterky.Json.Object.{at_key, put}
use jesterky.Proxy.Files.{
  FilePath, Bytes, Read, found, not_found, Paths, Files, IsFileSystem, HasOwnName,
}
use jesterky.Proxy.Budget.Defs.{
  BudgetConfig, Ledger, Charge, reserve, admit, cap_micros, over, media,
}
use jesterky.Proxy.Budget.Media.{mentions, media_keys}
use jesterky.Proxy.Budget.Steps.{KeepsCounts}
use jesterky.Proxy.Budget.Spending.{
  Run, starts, reserves, total_micros, total_tokens, spending_capped, admit_ok,
}

abbrev pub Disk : Type 0
Disk = Read × Read

abbrev ledger_path : FilePath
ledger_path = "/var/ledger.json"

abbrev pub paths : Paths
paths = record {
  is_absolute = λ p. true;
  parent = λ p. some "/var";
  with_extension = λ p e. "/var/ledger." +++ e;
  path_eq = str_eq;
}

-- The ledger, and the file that is staged.
abbrev pub files : Files Disk
files = record {
  create_dir_all = λ p d. (ok tt, d);
  lock = λ p d. (ok tt, d);
  read = λ p d. if str_eq p ledger_path then d.0 else d.1;
  write = λ p raw d. (ok tt, if str_eq p ledger_path then (found raw, d.1) else (d.0, found raw));
  sync = λ p d. (ok tt, d);
  rename = λ p q d. (ok tt, (d.1, not_found));
}

pub files-IsFileSystem : IsFileSystem files paths ledger_path
files-IsFileSystem = record {
  dir_keeps = λ p d e. refl;
  lock_keeps = λ d e. refl;
  write_keeps = λ b d e. refl;
  write_reads = λ b d o. refl;
  sync_keeps = λ p q d. refl;
  rename_replaces = λ d o. refl;
  rename_fails = λ d. inr refl;
}

false-ne-true : false ≢ true
false-ne-true h = cc

pub own_name : HasOwnName paths ledger_path
own_name = (
  λ e. false-ne-true ((eq_iff (paths.with_extension ledger_path "pending") ledger_path).1 e),
  λ e. false-ne-true ((eq_iff (paths.with_extension ledger_path "lock") ledger_path).1 e),
)

abbrev pub config : BudgetConfig
config = record {
  max_cost_usd = f64_of 1;
  input_usd_per_million = f64_of 2;
  output_usd_per_million = f64_of 3;
  max_output_tokens = 400;
  max_request_bytes = 100;
  max_total_tokens = some 20000;
  ledger_path = ledger_path;
}

-- A ledger is three numbers on this disk.
abbrev pub ledger_to_vec : Ledger → Result String Bytes
ledger_to_vec l = ok (l.reserved_micros ∷ l.requests ∷ l.reserved_tokens ∷ [])

abbrev pub ledger_from_slice : Bytes → Result String Ledger
ledger_from_slice (micros ∷ requests ∷ tokens ∷ []) = ok (record {
  config = config;
  reserved_micros = micros;
  requests = requests;
  reserved_tokens = tokens;
})
ledger_from_slice _ = err "no ledger"

pub keeps_counts : KeepsCounts ledger_from_slice ledger_to_vec
keeps_counts l l' raw written read =
    let same : raw ≡ l.reserved_micros ∷ l.requests ∷ l.reserved_tokens ∷ [] = cc in
    let back : ledger_from_slice (l.reserved_micros ∷ l.requests ∷ l.reserved_tokens ∷ []) ≡ ok l' =
      subst (λ r. ledger_from_slice r ≡ ok l') same read in
    (cc, cc)

abbrev pub to_vec : Value → Result String Bytes
to_vec v = ok (b'{' ∷ b'}' ∷ [])

abbrev payload : Value
payload =
    object (member "messages" (string "Hello.") (member "max_tokens" (number (pos_int 900)) empty))

abbrev limited : Value
limited =
    object (member "messages" (string "Hello.") (member "max_tokens" (number (pos_int 400)) empty))

-- 8196 input tokens at 2, and 400 output tokens at 3.
abbrev charge : Charge
charge = record { micros = 17592; input = 8196; output = 400 }

payload_admitted : admit to_vec config payload ≡ ok (limited, charge)
unfolding admit put media ceil_u64 f64_arithmetic
payload_admitted = refl

admit_ok_example :
    (raw : Bytes) × (to_vec payload ≡ ok raw)
    × (media (at_key "messages" payload) ≡ false)
    × All (λ k. mentions k (at_key "messages" payload) ≡ false) media_keys
    × (length raw ≤ 100)
    × ((k : String)
        → at_key k limited
          ≡ (if str_eq "max_tokens" k then number (pos_int 400) else at_key k payload))
    × (400 ≤ 400)
    × (min (2 * length raw) max_u64 ≤ 8196)
admit_ok_example = admit_ok to_vec config payload limited charge payload_admitted

abbrev pub no_files : Disk
no_files = (not_found, not_found)

abbrev one_request : Disk
one_request = (found (17592 ∷ 1 ∷ 8596 ∷ []), not_found)

request_reserved :
    reserve files paths ledger_from_slice ledger_to_vec to_vec config payload no_files
    ≡ (ok limited, one_request)
unfolding reserve put media ceil_u64 floor_u64 f64_arithmetic f64_eq
request_reserved = refl

one-Run :
    Run files paths ledger_from_slice ledger_to_vec to_vec config no_files one_request (charge ∷ [])
unfolding reserve admit put media ceil_u64 floor_u64 f64_arithmetic f64_eq
one-Run = reserves payload starts

spending_capped_example :
    (total_micros (charge ∷ []) ≤ cap_micros config)
    × (over (some 20000) (total_tokens (charge ∷ [])) ≡ false)
spending_capped_example =
    spending_capped files paths ledger_from_slice ledger_to_vec to_vec config files-IsFileSystem
      own_name keeps_counts no_files one_request (charge ∷ []) refl one-Run
