-- ===== src/Registry/Response.antt =====
-- `parse_response` of src/command_registry.rs and what it calls. The offset and the result map are
-- passed from entry to entry.
pub mod Words
pub mod ReadBack
pub mod ReadBits
pub mod Bounds
mod Tests
use Prim.Native.Nat.{bit_and}
use melsec_mc.Prelude.{
  ℕ, zero, suc, ◌+◌, ◌*◌, ◌-◌, ◌/◌, ◌%◌, ◌^◌, Bool, true, false, not, Option, none, some, String,
  List, [], ◌∷◌, ◌++◌, str_eq, ◌==◌, ◌&&◌, length, drop, leb, ltb, if◌then◌else◌,
}
use mathlib.Core.Option.{get_or}
use melsec_mc.Error.{
  Result, ok, err, panic, fail, ◌>>=◌, missing_block_count, block_count_too_large,
  response_too_short, response_offset_beyond_end, response_invalid_ascii_hex,
}
use melsec_mc.Bytes.{Bytes, byte_at, from_le_bytes, from_be_bytes}
use melsec_mc.Bytes.Bits.{◌>>◌}
use melsec_mc.Codec.{bits_from}
use melsec_mc.Device as Device
use melsec_mc.Device.{Device, DeviceType, device_by_code}
use melsec_mc.Json.{Json}
use melsec_mc.Registry.{
  ResponseEntry, block_words, block_bits_packed, block_nibbles, hex_text, CommandSpec,
}
use melsec_mc.Registry.Fields.{and_then, is_hex_digit}

-- A sum that does not fit a `usize` is a panic, as where overflow is checked. Where it is not, the
-- sum wraps, and the reads behind the check can be out of range.
pub ensure_bytes_available : Bytes → ℕ → ℕ → String → Result (Unit {0})
ensure_bytes_available buf offset needed kind =
    if ltb (2 ^ 64 - 1) (offset + needed)
    then panic
    else if ltb (length buf) (offset + needed)
    then fail (response_too_short kind)
    else ok tt

abbrev pub from_bytes : Bool → ℕ → ℕ → ℕ
from_bytes true b0 b1 = from_le_bytes b0 b1
from_bytes false b0 b1 = from_be_bytes b0 b1

-- The words at `offset`, for `count` more.
pub words_at : Bool → Bytes → ℕ → ℕ → Result (List ℕ)
words_at le buf offset zero = ok []
words_at le buf offset (suc count) = do
  b0 ← byte_at buf offset
  b1 ← byte_at buf (offset + 1)
  ws ← words_at le buf (offset + 2) count
  ok (from_bytes le b0 b1 ∷ ws)

-- The bit `bit_idx` of a byte, from its low end or its high end.
packed_bit : Bool → ℕ → ℕ → Bool
packed_bit true b bit_idx = not (bit_and (b >> bit_idx) 0x01 == 0)
packed_bit false b bit_idx = not (bit_and (b >> (7 - bit_idx)) 0x01 == 0)

-- The packed bits from the `i`-th on, for `count` more.
pub bits_at : Bool → Bytes → ℕ → ℕ → ℕ → Result (List Bool)
bits_at lsb_first buf offset i zero = ok []
bits_at lsb_first buf offset i (suc count) = do
  b ← byte_at buf (offset + i / 8)
  bs ← bits_at lsb_first buf offset (i + 1) count
  ok (packed_bit lsb_first b (i % 8) ∷ bs)

-- The points of a byte: whether each half is not 0.
unfoldable pub nibbles_of : Bool → ℕ → Bool × Bool
nibbles_of true b = (not (bit_and (b >> 4) 0x0F == 0), not (bit_and b 0x0F == 0))
nibbles_of false b = (not (bit_and b 0x0F == 0), not (bit_and (b >> 4) 0x0F == 0))

-- The points from `offset` on, two to a byte, for `count` more.
unfoldable pub nibbles_at : Bool → Bytes → ℕ → ℕ → Result (List Bool)
nibbles_at high_first buf offset zero = ok []
nibbles_at high_first buf offset (suc zero) = do
  b ← byte_at buf offset
  ok ((nibbles_of high_first b).0 ∷ [])
nibbles_at high_first buf offset (suc (suc count)) = do
  b ← byte_at buf offset
  bs ← nibbles_at high_first buf (offset + 1) count
  ok ((nibbles_of high_first b).0 ∷ (nibbles_of high_first b).1 ∷ bs)

-- The first byte of the rest that is not a hexadecimal digit.
first_non_hex : Bytes → Option ℕ
first_non_hex [] = none
first_non_hex (b ∷ bs) = let rest = first_non_hex bs in if is_hex_digit b then rest else some b

module _ (j : Json) where
  -- A count fits a `usize`, as it fits a `u64`.
  unfoldable pub read_block_count : j.Value → String → Result ℕ
  read_block_count block name = elim (and_then j (j.get block "count") j.as_u64) [
    | some count ↦ ok count
    | none ↦ fail (missing_block_count name)
  ]

  pushed_array : j.Map → String → j.Value → Option (List j.Value) → j.Map
  pushed_array m key v (some items) = j.insert m key (j.array (items ++ (v ∷ [])))
  pushed_array m key v none = j.insert m key (j.array (v ∷ []))

  push_array_in_result_map : j.Map → String → j.Value → j.Map
  push_array_in_result_map m key v = pushed_array m key v (and_then j (j.lookup m key) j.as_array)

  abbrev pub number_values : List ℕ → List j.Value
  number_values [] = []
  number_values (n ∷ ns) = j.number n ∷ number_values ns

  abbrev pub bool_values : List Bool → List j.Value
  bool_values [] = []
  bool_values (b ∷ bs) = j.bool b ∷ bool_values bs

  -- The device code of a block, or of the parameters.
  code_of_block : j.Value → j.Value → Option ℕ
  code_of_block params block =
      elim (and_then j (j.as_object block) λ m. and_then j (j.lookup m "device_code") j.as_u64) [
        | some dc ↦ some dc
        | none ↦ and_then j (j.get params "device_code") j.as_u64
      ]

  is_bit_device : List Device → Option ℕ → Bool
  is_bit_device devices none = false
  is_bit_device devices (some dc) =
      if leb dc 255
      then (elim (device_by_code devices dc) [
        | none ↦ false
        | some dev ↦ elim dev.category [
          | Device.bit ↦ true
          | Device.word ↦ false
          | Device.double_word ↦ false
        ]
      ])
      else false

  -- The one word of a block of a bit device gives its 16 bits, too.
  bits_of_word : List Device → j.Value → j.Value → List ℕ → j.Map → j.Map
  bits_of_word devices params block (w ∷ []) m =
      if is_bit_device devices (code_of_block params block)
      then push_array_in_result_map m "bit_blocks" (j.array (bool_values (bits_from 16 0 w)))
      else m
  bits_of_word devices params block _ m = m

  -- The blocks of an entry; the offset behind them, and the map.
  pub word_blocks :
      List Device
      → String
      → Bool
      → j.Value
      → Bytes
      → List j.Value
      → ℕ
      → j.Map
      → Result (List j.Value × (ℕ × j.Map))
  word_blocks devices name le params buf [] offset m = ok ([], (offset, m))
  word_blocks devices name le params buf (block ∷ blocks) offset m = do
    count ← read_block_count block name
    if leb (count * 2) (2 ^ 64 - 1)
        then (do
          _enough ← ensure_bytes_available buf offset (count * 2) "word block"
          ws ← words_at le buf offset count
          rest ←
              word_blocks devices name le params buf blocks (offset + count * 2)
                (bits_of_word devices params block ws m)
          ok (j.array (number_values ws) ∷ rest.0, rest.1))
        else fail block_count_too_large

  pub bit_blocks : String → Bool → Bytes → List j.Value → ℕ → Result (List j.Value × ℕ)
  bit_blocks name lsb_first buf [] offset = ok ([], offset)
  bit_blocks name lsb_first buf (block ∷ blocks) offset = do
    count ← read_block_count block name
    let needed = (count + 7) / 8
    _enough ← ensure_bytes_available buf offset needed "bit block"
    bits ← bits_at lsb_first buf offset 0 count
    rest ← bit_blocks name lsb_first buf blocks (offset + needed)
    ok (j.array (bool_values bits) ∷ rest.0, rest.1)

  pub nibble_blocks : String → Bool → Bytes → List j.Value → ℕ → Result (List j.Value × ℕ)
  nibble_blocks name high_first buf [] offset = ok ([], offset)
  nibble_blocks name high_first buf (block ∷ blocks) offset = do
    count ← read_block_count block name
    let needed = (count + 1) / 2
    _enough ← ensure_bytes_available buf offset needed "nibble block"
    nibbles ← nibbles_at high_first buf offset count
    rest ← nibble_blocks name high_first buf blocks (offset + needed)
    ok (j.array (bool_values nibbles) ∷ rest.0, rest.1)

  -- The text of a valid rest is ASCII, so it is UTF-8.
  hex_rest : String → Bytes → ℕ → j.Map → Result (ℕ × j.Map)
  hex_rest name buf offset m =
      if ltb (length buf) offset
      then fail response_offset_beyond_end
      else (elim (first_non_hex (drop offset buf)) [
        | some b ↦ fail (response_invalid_ascii_hex b)
        | none ↦ ok (length buf, j.insert m name (j.string (drop offset buf)))
      ])

  -- `cached_arrays.get(name)`, or no blocks. A map has one value for a key, so the cached array is
  -- the map's value, if that is an array.
  unfoldable pub blocks_of : j.Value → String → List j.Value
  blocks_of params name =
      get_or (and_then j (and_then j (j.as_object params) (λ m. j.lookup m name)) j.as_array) []

  parse_entry : List Device → ResponseEntry → j.Value → Bytes → ℕ → j.Map → Result (ℕ × j.Map)
  parse_entry devices (block_words name le) params buf offset m = do
    r ← word_blocks devices name le params buf (blocks_of params name) offset m
    ok (r.1.0, j.insert r.1.1 name (j.array r.0))
  parse_entry devices (block_bits_packed name lsb_first) params buf offset m = do
    r ← bit_blocks name lsb_first buf (blocks_of params name) offset
    ok (r.1, j.insert m name (j.array r.0))
  parse_entry devices (block_nibbles name high_first) params buf offset m = do
    r ← nibble_blocks name high_first buf (blocks_of params name) offset
    ok (r.1, j.insert m name (j.array r.0))
  parse_entry devices (hex_text name) params buf offset m = hex_rest name buf offset m

  pub parse_response_entries :
      List Device → List ResponseEntry → j.Value → Bytes → ℕ → j.Map → Result j.Map
  parse_response_entries devices [] params buf offset m = ok m
  parse_response_entries devices (e ∷ es) params buf offset m = do
    r ← parse_entry devices e params buf offset m
    parse_response_entries devices es params buf r.0 r.1

  pub parse_response : List Device → CommandSpec → j.Value → Bytes → Result j.Value
  parse_response devices spec params buf = do
    m ← parse_response_entries devices spec.response_entries params buf 0 j.empty
    ok (j.object m)
