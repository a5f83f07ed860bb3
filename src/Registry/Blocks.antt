-- ===== src/Registry/Blocks.antt =====
-- The blocks of a request: `append_blocks`, `build_request` and what they call.
use melsec_mc.Prelude.{
  ℕ, ◌+◌, Bool, true, false, Option, none, some, String, List, [], ◌∷◌, ◌++◌, leb, ltb,
  if◌then◌else◌,
}
use Prim.Native.String.{◌++◌ as str_append}
use melsec_mc.Error.{
  Result, ok, panic, fail, ◌>>=◌, ◌>>◌, Message, exceeds_word_points, exceeds_dword_points,
  exceeds_bit_points, missing_block_array, block_entry_not_object, missing_block_field,
  missing_field, field_out_of_range, word_item_not_number, word_item_out_of_range,
}
use melsec_mc.Bytes.{Bytes}
use melsec_mc.Command as Command
use melsec_mc.PlcSeries.{PlcSeries}
use melsec_mc.Device as Device
use melsec_mc.Device.{Device, DeviceType, device_by_code}
use melsec_mc.Json.{Json}
use melsec_mc.Registry.{
  FieldSpec, fixed_bytes, words, bytes, ascii_hex, BlockTemplate, Limits, CommandSpec,
  write_n_bytes, effective_layout,
}
use melsec_mc.Registry.Fields.{and_then, word_bytes, write_request_fields}

-- The points in the blocks of words, double words and bits.
pub record Points : Type 0 where
  pub total_word_points : ℕ
  pub total_dword_points : ℕ
  pub total_bits : ℕ

-- `+=` on u64, checked
add_u64 : ℕ → ℕ → Result ℕ
add_u64 total n = if ltb 0xFFFFFFFFFFFFFFFF (total + n) then panic else ok (total + n)

add_points : Points → DeviceType → ℕ → Result Points
add_points p Device.word n =
    add_u64 p.total_word_points n >>= λ total. ok (record p { total_word_points = total })
add_points p Device.double_word n =
    add_u64 p.total_dword_points n >>= λ total. ok (record p { total_dword_points = total })
add_points p Device.bit n = add_u64 p.total_bits n >>= λ total. ok (record p { total_bits = total })

-- A limit, if there is one.
unfoldable pub check_limit : (ℕ → ℕ → Message) → ℕ → Option ℕ → Result (Unit {0})
check_limit message total none = ok tt
check_limit message total (some limit) =
    if ltb limit total then fail (message total limit) else ok tt

unfoldable pub check_limits : String → Points → Limits → Result (Unit {0})
check_limits id p lim =
    check_limit (exceeds_word_points id) p.total_word_points lim.word_points
    >> (check_limit (exceeds_dword_points id) p.total_dword_points lim.dword_points
        >> check_limit (exceeds_bit_points id) p.total_bits lim.bit_points)

module _ (j : Json) where
  -- The category and the points of a block, if it names a known device and a count.
  block_points : List Device → j.Value → Option (DeviceType × ℕ)
  block_points devices entry = and_then j (j.as_object entry) λ m.
      and_then j (and_then j (j.lookup m "device_code") j.as_u64) λ dc.
        and_then j (and_then j (j.lookup m "count") j.as_u64) λ count.
          if leb dc 255
          then and_then j (device_by_code devices dc) (λ dev. some (dev.category, count))
          else none

  pub sum_entries : List Device → List j.Value → Points → Result Points
  sum_entries devices [] p = ok p
  sum_entries devices (entry ∷ entries) p = elim (block_points devices entry) [
    | some (category, n) ↦ add_points p category n >>= λ p'. sum_entries devices entries p'
    | none ↦ sum_entries devices entries p
  ]

  unfoldable pub sum_templates : List Device → j.Value → List BlockTemplate → Points → Result Points
  sum_templates devices params [] p = ok p
  sum_templates devices params (bt ∷ bts) p =
      elim (and_then j (j.get params (str_append bt.name "s")) j.as_array) [
        | some entries ↦ sum_entries devices entries p >>= λ p'. sum_templates devices params bts p'
        | none ↦ sum_templates devices params bts p
      ]

  unfoldable pub validate_block_limits : List Device → CommandSpec → j.Value → Result (Unit {0})
  validate_block_limits devices spec params = elim spec.limits [
    | none ↦ ok tt
    | some lim ↦
        sum_templates devices params spec.block_templates
          (record { total_word_points = 0; total_dword_points = 0; total_bits = 0 })
        >>= λ points. check_limits (Command.as_str spec.id) points lim
  ]

  emit_field_fixed_bytes : String → ℕ → Bool → j.Map → Option PlcSeries → Bytes → Result Bytes
  emit_field_fixed_bytes name n le m series out = elim (and_then j (j.lookup m name) j.as_u64) [
    | none ↦ fail (missing_block_field name)
    | some val ↦
        let layout = effective_layout name series n le in
        ok (write_n_bytes out layout.0 val layout.1)
  ]

  emit_items : Bool → List j.Value → Bytes → Result Bytes
  emit_items le [] out = ok out
  emit_items le (item ∷ items) out = elim (j.as_u64 item) [
    | none ↦ fail word_item_not_number
    | some num ↦ elim (leb num 65535) [
      | true ↦ emit_items le items (out ++ word_bytes le num)
      | false ↦ fail (word_item_out_of_range num)
    ]
  ]

  emit_field_words : String → Bool → j.Map → Bytes → Result Bytes
  emit_field_words name le m out = elim (and_then j (j.lookup m name) j.as_array) [
    | some items ↦ emit_items le items out
    | none ↦ elim (and_then j (j.lookup m name) j.as_u64) [
      | none ↦ fail (missing_field name)
      | some val ↦
          if leb val 65535
          then ok (out ++ word_bytes le val)
          else fail (field_out_of_range name val)
    ]
  ]

  emit_fields : List FieldSpec → j.Map → Option PlcSeries → Bytes → Result Bytes
  emit_fields [] m series out = ok out
  emit_fields (f ∷ fs) m series out = elim f.kind [
    | fixed_bytes n le ↦
        emit_field_fixed_bytes f.name n le m series out >>= λ out'. emit_fields fs m series out'
    | words le ↦ emit_field_words f.name le m out >>= λ out'. emit_fields fs m series out'
    | bytes ↦ emit_fields fs m series out
    | ascii_hex ↦ emit_fields fs m series out
  ]

  emit_entries : BlockTemplate → List j.Value → Option PlcSeries → Bytes → Result Bytes
  emit_entries bt [] series out = ok out
  emit_entries bt (entry ∷ entries) series out = elim (j.as_object entry) [
    | none ↦ fail block_entry_not_object
    | some m ↦ emit_fields bt.fields m series out >>= λ out'. emit_entries bt entries series out'
  ]

  pub emit_block_template : BlockTemplate → j.Value → Option PlcSeries → Bytes → Result Bytes
  emit_block_template bt params series out =
      elim (and_then j (j.get params (str_append bt.name "s")) j.as_array) [
        | none ↦ fail (missing_block_array (str_append bt.name "s"))
        | some entries ↦ emit_entries bt entries series out
      ]

  unfoldable pub emit_blocks :
      List BlockTemplate → j.Value → Option PlcSeries → Bytes → Result Bytes
  emit_blocks [] params series out = ok out
  emit_blocks (bt ∷ bts) params series out =
      emit_block_template bt params series out >>= λ out'. emit_blocks bts params series out'

  unfoldable pub append_blocks :
      List Device → CommandSpec → j.Value → Option PlcSeries → Bytes → Result Bytes
  append_blocks devices spec params series out =
      validate_block_limits devices spec params
      >> emit_blocks spec.block_templates params series out

  unfoldable pub build_request :
      List Device → CommandSpec → j.Value → Option PlcSeries → Result Bytes
  build_request devices spec params series = do
    out ← write_request_fields j devices spec params series []
    append_blocks devices spec params series out
