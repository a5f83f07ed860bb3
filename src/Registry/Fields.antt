-- ===== src/Registry/Fields.antt =====
-- The request fields of src/command_registry.rs: `write_request_fields` and what it calls. Each
-- function takes the bytes written so far and returns them with its own.
use melsec_mc.Prelude.{
  ℤ, pos, negsuc, ℕ, Bool, true, false, ◌||◌, ◌&&◌, Option, none, some, String, List, [], ◌∷◌, ◌++◌,
  str_eq, length, leb, if◌then◌else◌,
}
use Prim.Native.String.{◌++◌ as str_append}
use melsec_mc.Error.{
  Result, ok, fail, ◌>>=◌, ◌>>◌, word_item_out_of_range, words_item_not_number,
  words_expected_array, device_code_out_of_range, requires_bit_device, requires_word_device,
  requires_dword_device, missing_numeric_param, payload_item_not_number, payload_item_out_of_range,
  payload_invalid_ascii_hex,
}
use melsec_mc.Bytes.{Bytes, to_le_bytes, to_be_bytes}
use melsec_mc.Command as Command
use melsec_mc.PlcSeries.{PlcSeries}
use melsec_mc.Device as Device
use melsec_mc.Device.{Device, DeviceType, device_by_code}
use melsec_mc.Json.{Json}
use melsec_mc.Registry.{
  fixed_bytes, words, bytes, ascii_hex, FieldSpec, DeviceFamily, any, bit, word, double_word,
  BlockTemplate, CommandSpec, effective_sub, write_n_bytes, effective_layout,
}

-- `b.is_ascii_digit() || (b'A'..=b'F').contains(&b) || (b'a'..=b'f').contains(&b)`
pub is_hex_digit : ℕ → Bool
is_hex_digit b = leb 48 b && leb b 57 || leb 65 b && leb b 70 || leb 97 b && leb b 102

abbrev pub word_bytes : Bool → ℕ → Bytes
word_bytes true n = to_le_bytes n
word_bytes false n = to_be_bytes n

-- Whether a device of a category may be used with a family.
unfoldable pub family_error : DeviceFamily → String → ℕ → DeviceType → Result (Unit {0})
family_error any id code category = ok tt
family_error bit id code Device.bit = ok tt
family_error bit id code Device.word = fail (requires_bit_device id code)
family_error bit id code Device.double_word = fail (requires_bit_device id code)
family_error word id code Device.bit = fail (requires_word_device id code)
family_error word id code Device.word = ok tt
family_error word id code Device.double_word = ok tt
family_error double_word id code Device.bit = fail (requires_dword_device id code)
family_error double_word id code Device.word = fail (requires_dword_device id code)
family_error double_word id code Device.double_word = ok tt

unfoldable pub family_of_device : DeviceFamily → String → ℕ → Option Device → Result (Unit {0})
family_of_device family id code none = ok tt
family_of_device family id code (some dev) = family_error family id code dev.category

unfoldable pub validate_code_for_family :
    List Device → String → ℕ → DeviceFamily → Result (Unit {0})
validate_code_for_family devices id code_num family =
    if leb code_num 255
    then family_of_device family id code_num (device_by_code devices code_num)
    else fail (device_code_out_of_range code_num)

-- A command and a subcommand are always little-endian.
unfoldable pub request_layout : String → Option PlcSeries → ℕ → Bool → ℕ × Bool
request_layout name series n le =
    if str_eq name "command" || str_eq name "subcommand"
    then (n, true)
    else effective_layout name series n le

module _ (j : Json) where
  -- `params.get(key).and_then(Value::as_array)` and the like
  abbrev pub and_then {ℓ κ} : {A : Type ℓ} {B : Type κ} → Option A → (A → Option B) → Option B
  and_then none f = none
  and_then (some a) f = f a

  unfoldable pub word_items : Bool → String → List j.Value → Bytes → Result Bytes
  word_items le name [] out = ok out
  word_items le name (item ∷ items) out = elim (j.as_u64 item) [
    | none ↦ fail (words_item_not_number name)
    | some num ↦ elim (leb num 65535) [
      | true ↦ word_items le name items (out ++ word_bytes le num)
      | false ↦ fail (word_item_out_of_range num)
    ]
  ]

  unfoldable pub words_of_array : Bool → String → Option (List j.Value) → Bytes → Result Bytes
  words_of_array le name none out = fail (words_expected_array name)
  words_of_array le name (some items) out = word_items le name items out

  unfoldable pub write_words_field : Bool → String → j.Value → Bytes → Result Bytes
  write_words_field le name params out =
      words_of_array le name (and_then (j.get params name) j.as_array) out

  -- The items of an array of bytes.
  byte_items : String → List j.Value → Bytes → Result Bytes
  byte_items name [] out = ok out
  byte_items name (item ∷ items) out = elim (j.as_u64 item) [
    | none ↦ fail (payload_item_not_number name)
    | some num ↦ elim (leb num 255) [
      | true ↦ byte_items name items (out ++ (num ∷ []))
      | false ↦ fail (payload_item_out_of_range num)
    ]
  ]

  pub write_bytes_field : String → j.Value → Bytes → Result Bytes
  write_bytes_field name params out = elim (and_then (j.get params name) j.as_array) [
    | some items ↦ byte_items name items out
    | none ↦ elim (and_then (j.get params name) j.as_str) [ some s ↦ ok (out ++ s) | none ↦ ok out ]
  ]

  hex_items : Bytes → Bytes → Result Bytes
  hex_items [] out = ok out
  hex_items (b ∷ bs) out = elim (is_hex_digit b) [
    | true ↦ hex_items bs (out ++ (b ∷ []))
    | false ↦ fail (payload_invalid_ascii_hex b)
  ]

  pub write_ascii_hex_field : String → j.Value → Bytes → Result Bytes
  write_ascii_hex_field name params out = elim (and_then (j.get params name) j.as_str) [
    | some s ↦ hex_items s out
    | none ↦ elim (and_then (j.get params name) j.as_array) [
      | some items ↦ byte_items name items out
      | none ↦ ok out
    ]
  ]

  pub count_of : Option (List j.Value) → ℕ
  count_of none = 0
  count_of (some items) = length items

  pub signed_number : String → Option ℤ → Result ℕ
  signed_number name (some (pos n)) = ok n
  signed_number name (some (negsuc n)) = fail (missing_numeric_param name)
  signed_number name none = fail (missing_numeric_param name)

  unfoldable pub number_of : String → Option j.Value → Result ℕ
  number_of name none = fail (missing_numeric_param name)
  number_of name (some v) =
      if j.is_number v
      then (elim (j.as_u64 v) [ some n ↦ ok n | none ↦ signed_number name (j.as_i64 v) ])
      else fail (missing_numeric_param name)

  unfoldable pub get_num_field : CommandSpec → String → j.Value → Option PlcSeries → Result ℕ
  get_num_field spec name params series =
      if str_eq name "command"
      then ok spec.command_code
      else if str_eq name "subcommand"
      then ok (effective_sub spec.subcommand series)
      else if str_eq name "word_block_count"
      then ok (count_of (and_then (j.get params "word_blocks") j.as_array))
      else if str_eq name "bit_block_count"
      then ok (count_of (and_then (j.get params "bit_blocks") j.as_array))
      else number_of name (j.get params name)

  unfoldable pub write_fixed_bytes_field :
      CommandSpec → String → ℕ → Bool → j.Value → Option PlcSeries → Bytes → Result Bytes
  write_fixed_bytes_field spec name n le params series out = do
    v ← get_num_field spec name params series
    let layout = request_layout name series n le
    ok (write_n_bytes out layout.0 v layout.1)

  unfoldable pub write_field :
      CommandSpec → FieldSpec → j.Value → Option PlcSeries → Bytes → Result Bytes
  write_field spec f params series out = elim f.kind [
    | fixed_bytes n le ↦ write_fixed_bytes_field spec f.name n le params series out
    | words le ↦ write_words_field le f.name params out
    | bytes ↦ write_bytes_field f.name params out
    | ascii_hex ↦ write_ascii_hex_field f.name params out
  ]

  unfoldable pub write_fields :
      CommandSpec → List FieldSpec → j.Value → Option PlcSeries → Bytes → Result Bytes
  write_fields spec [] params series out = ok out
  write_fields spec (f ∷ fs) params series out = do
    out' ← write_field spec f params series out
    write_fields spec fs params series out'

  -- The device codes of the blocks of a template.
  pub validate_entries : List Device → String → DeviceFamily → List j.Value → Result (Unit {0})
  validate_entries devices id family [] = ok tt
  validate_entries devices id family (entry ∷ entries) =
      elim (and_then (and_then (j.as_object entry) (λ m. j.lookup m "device_code")) j.as_u64) [
        | some dc ↦
            validate_code_for_family devices id dc family
            >> validate_entries devices id family entries
        | none ↦ validate_entries devices id family entries
      ]

  pub block_family : DeviceFamily → Option DeviceFamily → DeviceFamily
  block_family family none = family
  block_family family (some own) = own

  unfoldable pub validate_templates :
      List Device → CommandSpec → j.Value → List BlockTemplate → Result (Unit {0})
  validate_templates devices spec params [] = ok tt
  validate_templates devices spec params (bt ∷ bts) =
      elim (and_then (j.get params (str_append bt.name "s")) j.as_array) [
        | some entries ↦
            validate_entries devices (Command.as_str spec.id)
              (block_family spec.device_family bt.device_family) entries
            >> validate_templates devices spec params bts
        | none ↦ validate_templates devices spec params bts
      ]

  unfoldable pub validate_device_code : List Device → CommandSpec → j.Value → Result (Unit {0})
  validate_device_code devices spec params = elim (and_then (j.get params "device_code") j.as_u64) [
    | some dc ↦ validate_code_for_family devices (Command.as_str spec.id) dc spec.device_family
    | none ↦ ok tt
  ]

  unfoldable pub write_request_fields :
      List Device → CommandSpec → j.Value → Option PlcSeries → Bytes → Result Bytes
  write_request_fields devices spec params series out =
      validate_device_code devices spec params
      >> (validate_templates devices spec params spec.block_templates
          >> write_fields spec spec.request_fields params series out)
