-- ===== src/Json.antt =====
-- `serde_json::Value` as the source uses it: the tree of values, its accessors, and the equality
-- that `#[derive(PartialEq)]` gives. serde_json's map is a `BTreeMap`, so its keys are in order.
pub mod Object
pub mod Equality
use jesterky.Prelude.{
  ℕ, suc, ◌≡◌, refl, Bool, true, false, Option, none, some, List, [], ◌∷◌, String, ltb, ◌==◌, ◌^◌,
  if◌then◌else◌,
}
use jesterky.F64.{F64, f64_of, f64_neg}

-- `neg_int n` is -(n + 1).
pub data Number : Type 0 where
  pos_int : ℕ → Number
  neg_int : ℕ → Number
  float : F64 → Number

mutual
  pub data Value : Type 0 where
    null : Value
    bool : Bool → Value
    number : Number → Value
    string : String → Value
    array : Values → Value
    object : Members → Value

  -- `Vec<Value>`
  pub data Values : Type 0 where
    nil : Values
    cons : Value → Values → Values

  -- `serde_json::Map<String, Value>`
  pub data Members : Type 0 where
    empty : Members
    member : String → Value → Members → Members

abbrev pub to_list : Values → List Value
to_list nil = []
to_list (cons v vs) = v ∷ to_list vs

abbrev pub of_list : List Value → Values
of_list [] = nil
of_list (v ∷ vs) = cons v (of_list vs)

-- `Value::Array(vec)`
abbrev pub array_of : List Value → Value
array_of vs = array (of_list vs)

pub to_list-of_list : (vs : List Value) → to_list (of_list vs) ≡ vs
to_list-of_list [] = refl
to_list-of_list (v ∷ vs) = λ i. v ∷ to_list-of_list vs i

-- The accessors: `none` at a value of another form.
abbrev pub as_object : Value → Option Members
as_object (object m) = some m
as_object _ = none

abbrev pub as_array : Value → Option (List Value)
as_array (array vs) = some (to_list vs)
as_array _ = none

abbrev pub as_bool : Value → Option Bool
as_bool (bool b) = some b
as_bool _ = none

abbrev pub as_str : Value → Option String
as_str (string s) = some s
as_str _ = none

abbrev pub number_as_u64 : Number → Option ℕ
number_as_u64 (pos_int n) = some n
number_as_u64 (neg_int n) = none
number_as_u64 (float x) = none

abbrev pub as_u64 : Value → Option ℕ
as_u64 (number n) = number_as_u64 n
as_u64 _ = none

abbrev pub number_as_f64 : Number → F64
number_as_f64 (pos_int n) = f64_of n
number_as_f64 (neg_int n) = f64_neg (f64_of (suc n))
number_as_f64 (float x) = x

abbrev pub as_f64 : Value → Option F64
as_f64 (number n) = some (number_as_f64 n)
as_f64 _ = none

abbrev pub is_object : Value → Bool
is_object (object m) = true
is_object _ = false
