-- ===== src/Json/Plain.antt =====
-- A plain implementation of the interface: a map is its entries, the latest first.
use melsec_mc.Prelude.{
  ℤ, pos, ℕ, ◌≡◌, refl, Bool, true, false, String, Option, none, some, List, [], ◌∷◌, str_eq,
  if◌then◌else◌,
}
use melsec_mc.Prelude.{eq_refl}
use melsec_mc.Bytes.{Bytes}
use melsec_mc.Json.{Json, IsJson}

mutual
  pub data Value : Type 0 where
    boolean : Bool → Value
    natural : ℕ → Value
    text : Bytes → Value
    items : Values → Value
    fields : Fields → Value

  pub data Values : Type 0 where
    no_values : Values
    value : Value → Values → Values

  pub data Fields : Type 0 where
    no_fields : Fields
    field : String → Value → Fields → Fields

to_list : Values → List Value
to_list no_values = []
to_list (value v vs) = v ∷ to_list vs

from_list : List Value → Values
from_list [] = no_values
from_list (v ∷ vs) = value v (from_list vs)

to_list-from_list : (vs : List Value) → to_list (from_list vs) ≡ vs
unfolding to_list from_list
to_list-from_list [] = refl
to_list-from_list (v ∷ vs) = rw (to_list-from_list vs)

as_u64 : Value → Option ℕ
as_u64 (natural n) = some n
as_u64 _ = none

as_i64 : Value → Option ℤ
as_i64 (natural n) = some (pos n)
as_i64 _ = none

is_number : Value → Bool
is_number (natural n) = true
is_number _ = false

as_str : Value → Option Bytes
as_str (text s) = some s
as_str _ = none

as_array : Value → Option (List Value)
as_array (items vs) = some (to_list vs)
as_array _ = none

as_object : Value → Option Fields
as_object (fields m) = some m
as_object _ = none

find : Fields → String → Option Value
find no_fields key = none
find (field k v m) key = let rest = find m key in if str_eq k key then some v else rest

get : Value → String → Option Value
get (fields m) key = find m key
get _ key = none

unfoldable pub plain : Json
unfolding to_list from_list as_u64 as_i64 is_number as_str as_array as_object find get
plain = record {
  Value = Value;
  Map = Fields;
  bool = boolean;
  number = natural;
  string = text;
  array = λ vs. items (from_list vs);
  object = fields;
  as_u64 = as_u64;
  as_i64 = as_i64;
  is_number = is_number;
  as_str = as_str;
  as_array = as_array;
  as_object = as_object;
  get = get;
  empty = no_fields;
  lookup = find;
  insert = λ m key v. field key v m;
}

pub plain-IsJson : IsJson plain
unfolding plain to_list from_list as_u64 is_number as_array as_object find get
plain-IsJson = record {
  as_u64-number = λ n h. refl;
  is_number-number = λ n. refl;
  as_array-array = λ vs. rw (to_list-from_list vs);
  as_object-object = λ m. refl;
  get-object = λ m key. refl;
  lookup-empty = λ key. refl;
  lookup-insert = λ m key v. rw (eq_refl);
  lookup-insert_other = λ m key other v h. rw h;
}
