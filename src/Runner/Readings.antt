-- ===== src/Runner/Readings.antt =====
-- What a node makes of values: `reduce_outcome`, `is_truthy` and `collect_map_outputs` of
-- crates/jesterky-core/src/runner.rs.
use jesterky.Prelude.Text.{is_blank}
use jesterky.Json.Object.{put, is_empty_map}
use jesterky.Artifact.{and_then, field}
use jesterky.F64.{f64_sub, f64_lt, f64_of, f64_eq, f64_div, zero_f64, one_f64, f64_clamp, F64}
use jesterky.Json.{
  as_f64, as_str, float, neg_int, to_list, array, array_of, string, object, null, number, as_object,
  bool, empty, pos_int, Members, Value, Number,
}
use jesterky.Ledger.{missing_slot, LedgerError, Bindings}
use jesterky.Prelude.{
  is_empty, ◌||◌, ok_or, ◌+◌, not, ◌^◌, ◌&&◌, ◌>>=◌, err, ok, length, ◌==◌, ltb, none, [], leb,
  if◌then◌else◌, false, some, unwrap_or, true, ◌∷◌, ℕ, Option, String, List, Result, Bool,
}
use Prim.Native.Char.{code}
use Prim.Native.String.{◌++◌}

-- `value.get(key)`: none on a value that is no object.
abbrev pub value_get : String → Value → Option Value
value_get key v = field key (as_object v)

abbrev or_else : {A : Type 0} → Option A → Option A → Option A
or_else none o = o
or_else (some a) o = some a

abbrev f64_at : String → Value → Option F64
f64_at key v = and_then (value_get key v) as_f64

unfoldable pub explicit_score : Value → Option F64
explicit_score v = f64_at "score" v

abbrev quotient_score : F64 → F64 → Option F64
quotient_score n d = some (f64_clamp (f64_div n d) zero_f64 one_f64)

unfoldable pub ratio_score : Value → String → String → Option F64
ratio_score v numerator denominator = and_then (f64_at numerator v) (λ n.
    and_then (f64_at denominator v) (λ d. if f64_lt zero_f64 d then quotient_score n d else none))

unfoldable pub inverse_count_score : Value → String → String → Option F64
inverse_count_score v count total = and_then (f64_at count v) (λ c.
    and_then (f64_at total v)
      (λ t. if f64_lt zero_f64 t then quotient_score (f64_sub t c) t else none))

abbrev ascii_lower : ℕ → ℕ
ascii_lower c = if leb b'A' c && leb c b'Z' then c + 32 else c

-- `a.eq_ignore_ascii_case(b)`
unfoldable pub eq_ignore_ascii_case : String → String → Bool
eq_ignore_ascii_case String.[] String.[] = true
eq_ignore_ascii_case (String.◌∷◌ c s) (String.◌∷◌ d t) =
    ascii_lower (code c) == ascii_lower (code d) && eq_ignore_ascii_case s t
eq_ignore_ascii_case _ _ = false

abbrev score_of_verdict : String → Option F64
score_of_verdict verdict =
    if eq_ignore_ascii_case verdict "pass"
    then some one_f64
    else if eq_ignore_ascii_case verdict "fail"
    then some zero_f64
    else none

unfoldable pub verdict_score : Value → Option F64
verdict_score v = and_then (and_then (value_get "verdict" v) as_str) score_of_verdict

abbrev signal_keys : List String
signal_keys = "verdict" ∷ "passed" ∷ "failed" ∷ "total" ∷ "blockers" ∷ "annotated" ∷ []

unfoldable pub gather : Value → List String → Members → Members
gather summary [] signal = signal
gather summary (key ∷ keys) signal = elim (value_get key summary) [
  | none ↦ gather summary keys signal
  | some v ↦ gather summary keys (put key v signal)
]

unfoldable pub reduce_signal : Value → Option Value
unfolding gather
reduce_signal summary =
    let signal = gather summary signal_keys empty in
    if is_empty_map signal then none else some (object signal)

unfoldable pub reduce_outcome : Value → Option F64 × Option Value
unfolding explicit_score ratio_score inverse_count_score verdict_score reduce_signal
reduce_outcome outputs =
    let summary = unwrap_or (value_get "summary" outputs) outputs in
    (
      or_else (explicit_score summary) (
          or_else (ratio_score summary "passed" "total")
            (or_else (inverse_count_score summary "blockers" "total") (verdict_score summary))),
      reduce_signal summary,
    )

-- `as_i64` and `as_u64` are none outside of their ranges; a number that is a float has neither.
abbrev is_nonzero : Number → Bool
is_nonzero (pos_int n) =
    (ltb n (2 ^ 63) && not (n == 0)) || not (n == 0) || not (f64_eq (f64_of n) zero_f64)
is_nonzero (neg_int n) = true
is_nonzero (float x) = not (f64_eq x zero_f64)

unfoldable pub is_truthy : Value → Bool
is_truthy null = false
is_truthy (bool b) = b
is_truthy (number n) = is_nonzero n
is_truthy (string s) = not (is_blank s)
is_truthy (array vs) = not (is_empty (to_list vs))
is_truthy (object m) = not (is_empty_map m)

-- One `results` entry for one field of the outputs.
unfoldable pub map_value : Bool → String → Result String Value → Result LedgerError Value
map_value single field_ (err message) = ok null
map_value single field_ (ok v) =
    if single
    then ok (unwrap_or (value_get field_ v) v)
    else ok_or (value_get field_ v) (missing_slot ("map result." ++ field_))

unfoldable pub map_values :
    Bool → String → List (Result String Value) → Result LedgerError (List Value)
unfolding map_value
map_values single field_ [] = ok []
map_values single field_ (r ∷ rs) = do
  v ← map_value single field_ r
  vs ← map_values single field_ rs
  ok (v ∷ vs)

unfoldable pub collect_fields :
    Bool → Bindings → List (Result String Value) → Members → Result LedgerError Members
unfolding map_values
collect_fields single [] results collected = ok collected
collect_fields single ((field_, dest) ∷ outputs) results collected = do
  values ← map_values single field_ results
  collect_fields single outputs results (put field_ (array_of values) collected)

abbrev as_value : Result LedgerError Members → Result LedgerError Value
as_value (ok m) = ok (object m)
as_value (err e) = err e

unfoldable pub collect_map_outputs :
    Bindings → List (Result String Value) → Result LedgerError Value
unfolding collect_fields
collect_map_outputs outputs results =
    as_value (collect_fields (length outputs == 1) outputs results empty)
