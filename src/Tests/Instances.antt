-- ===== src/Tests/Instances.antt =====
-- Concrete numbers and JSON values for the parameters of the model.
use quan_ly_chuong_ga.Prelude.{
  ℕ, ◌*◌, ◌^◌, ◌≡◌, Bool, true, false, not, List, [], ◌∷◌, Option, none, some, leb, arith, ℤ, pos,
  if◌then◌else◌,
}
use quan_ly_chuong_ga.CString.{Bytes, codes, bytes_eq}
use quan_ly_chuong_ga.Double.{Double}
use quan_ly_chuong_ga.Jansson.{Jansson}

-- m / 10^k
pub record Decimal : Type 0 where
  pub m : ℕ
  pub k : ℕ

abbrev pub decimal_le : Decimal → Decimal → Bool
decimal_le a b = leb (a.m * 10 ^ b.k) (b.m * 10 ^ a.k)

decimal_total :
    (a b low high : Decimal)
    → decimal_le a high ≡ true
    → decimal_le low b ≡ true
    → not (decimal_le a b) ≡ false
    → decimal_le a b ≡ true
decimal_total a b low high p q h = ground arith

instance pub decimals : Double Decimal
decimals = record {
  le = decimal_le;
  lt = λ a b. not (decimal_le b a);
  literal = λ m k. record { m = m; k = k };
  to_int = λ a. pos a.m;
  le-literal = λ m j n k h. ground arith;
  le_of_not_lt = decimal_total;
}

mutual
  pub data Value : Type 0 where
    text : Bytes → Value
    whole : ℤ → Value
    real : Decimal → Value
    items : Values → Value
    fields : Fields → Value

  pub data Values : Type 0 where
    no_items : Values
    item : Value → Values → Values

  pub data Fields : Type 0 where
    no_fields : Fields
    field : Bytes → Value → Fields → Fields

unfoldable pub from_list : List Value → Values
from_list [] = no_items
from_list (v ∷ vs) = item v (from_list vs)

unfoldable pub to_list : Values → List Value
to_list no_items = []
to_list (item v vs) = v ∷ to_list vs

unfoldable pub field_at : Fields → Bytes → Option Value
field_at no_fields key = none
field_at (field name v rest) key = if bytes_eq name key then some v else field_at rest key

abbrev pub value_at : Value → Bytes → Option Value
value_at (fields fs) key = field_at fs key
value_at _ key = none

abbrev pub is_fields : Value → Bool
is_fields (fields fs) = true
is_fields _ = false

abbrev pub value_items : Value → Option (List Value)
value_items (items vs) = some (to_list vs)
value_items _ = none

abbrev pub value_text : Value → Option Bytes
value_text (text s) = some s
value_text _ = none

abbrev pub value_whole : Value → Option ℤ
value_whole (whole n) = some n
value_whole _ = none

abbrev pub value_number : Value → Option Decimal
value_number (real x) = some x
value_number _ = none

abbrev pub with_field : Value → Bytes → Value → Value
with_field (fields fs) key v = fields (field key v fs)
with_field other key v = other

-- Every payload is read as {"toc_do": 3}.
abbrev pub speed_payload : Value
speed_payload = fields (field (codes "toc_do") (whole (pos 3)) no_fields)

abbrev pub values : Jansson Decimal Value (Option Value)
values = record {
  object_get = value_at;
  is_object = is_fields;
  array_items = value_items;
  string_value = value_text;
  integer_value = value_whole;
  number_value = value_number;
  object = fields no_fields;
  array = λ vs. items (from_list vs);
  object_set = with_field;
  string = λ s. some (text s);
  real = λ x. some (real x);
  integer = whole;
  dumps = λ v. value_text v;
  loads = λ s. some speed_payload;
  dump_file = λ v file. (pos 0, some v);
  load_file = λ file. file;
}
