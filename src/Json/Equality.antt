-- ===== src/Json/Equality.antt =====
-- `==` on values: numbers by their variant, floats by `f64`'s `==`, maps member by member.
use jesterky.Prelude.{Bool, true, false, ◌&&◌, str_eq, ◌==◌}
use jesterky.F64.{f64_eq}
use jesterky.Json.{
  Number, pos_int, neg_int, float, Value, Values, Members, null, bool, number, string, array,
  object, nil, cons, empty, member,
}

abbrev pub bool_eq : Bool → Bool → Bool
bool_eq true b = b
bool_eq false true = false
bool_eq false false = true

abbrev pub number_eq : Number → Number → Bool
number_eq (pos_int m) (pos_int n) = m == n
number_eq (neg_int m) (neg_int n) = m == n
number_eq (float x) (float y) = f64_eq x y
number_eq _ _ = false

unfoldable mutual
  pub value_eq : Value → Value → Bool
  value_eq null null = true
  value_eq (bool a) (bool b) = bool_eq a b
  value_eq (number m) (number n) = number_eq m n
  value_eq (string s) (string t) = str_eq s t
  value_eq (array xs) (array ys) = values_eq xs ys
  value_eq (object m) (object n) = members_eq m n
  value_eq _ _ = false

  pub values_eq : Values → Values → Bool
  values_eq nil nil = true
  values_eq (cons x xs) (cons y ys) = value_eq x y && values_eq xs ys
  values_eq _ _ = false

  pub members_eq : Members → Members → Bool
  members_eq empty empty = true
  members_eq (member j v m) (member k w n) = str_eq j k && (value_eq v w && members_eq m n)
  members_eq _ _ = false
