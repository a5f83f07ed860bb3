-- ===== src/Json.antt =====
-- The values of `serde_json`, as src/command_registry.rs and src/mc_client.rs use them: an
-- interface, since the crate is not part of the repository. A string is its UTF-8 bytes.
pub mod Plain
use melsec_mc.Prelude.{
  ℤ, ℕ, ◌^◌, ◌<◌, ◌≡◌, Bool, true, false, String, Option, none, some, List, str_eq,
}
use melsec_mc.Bytes.{Bytes}

pub record Json : Type 1 where
  pub Value : Type 0
  pub Map : Type 0
  pub bool : Bool → Value
  pub number : ℕ → Value
  pub string : Bytes → Value
  pub array : List Value → Value
  pub object : Map → Value
  pub as_u64 : Value → Option ℕ
  pub as_i64 : Value → Option ℤ
  pub is_number : Value → Bool
  pub as_str : Value → Option Bytes
  pub as_array : Value → Option (List Value)
  pub as_object : Value → Option Map
  pub get : Value → String → Option Value
  pub empty : Map
  pub lookup : Map → String → Option Value
  pub insert : Map → String → Value → Map

-- What its documentation says of them.
pub record IsJson (j : Json) : Type 0 where
  pub as_u64-number : (n : ℕ) → n < 2 ^ 64 → j.as_u64 (j.number n) ≡ some n
  pub is_number-number : (n : ℕ) → j.is_number (j.number n) ≡ true
  pub as_array-array : (vs : List j.Value) → j.as_array (j.array vs) ≡ some vs
  pub as_object-object : (m : j.Map) → j.as_object (j.object m) ≡ some m
  pub get-object : (m : j.Map) (key : String) → j.get (j.object m) key ≡ j.lookup m key
  pub lookup-empty : (key : String) → j.lookup j.empty key ≡ none
  pub lookup-insert :
      (m : j.Map) (key : String) (v : j.Value) → j.lookup (j.insert m key v) key ≡ some v
  pub lookup-insert_other :
      (m : j.Map) (key other : String) (v : j.Value)
      → str_eq key other ≡ false
      → j.lookup (j.insert m key v) other ≡ j.lookup m other
