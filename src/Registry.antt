-- ===== src/Registry.antt =====
-- src/command_registry.rs: the specification of a command, and the number fields of a request.
-- A `HashMap` is the list of its entries in its iteration order.
pub mod Numbers
pub mod Fields
pub mod Blocks
pub mod Response
pub mod Nibbles
pub mod Params
pub mod FixedFields
pub mod ReadRequest
pub mod DeviceText
pub mod WriteRequest
pub mod Formats
pub mod File
pub mod Validate
mod Tests
pub mod FileTests
use Prim.Native.Nat.{bit_and}
use melsec_mc.Prelude.{
  ℕ, zero, suc, ◌+◌, ◌^◌, ◌%◌, Bool, true, false, ◌&&◌, ◌||◌, Option, none, some, String, List, [],
  ◌∷◌, ◌++◌, str_eq, ◌==◌, take, leb, if◌then◌else◌,
}
use mathlib.Core.List.{reverse}
use mathlib.Core.Option.{get_or}
use melsec_mc.Bytes.{Bytes}
use melsec_mc.Bytes.Bits.{◌>>◌}
use melsec_mc.Command.{Command}
use melsec_mc.PlcSeries.{PlcSeries, q, r}

pub data FieldKind : Type 0 where
  fixed_bytes : ℕ → Bool → FieldKind
  words : Bool → FieldKind
  bytes : FieldKind
  ascii_hex : FieldKind

pub record FieldSpec : Type 0 where
  pub name : String
  pub kind : FieldKind

pub data DeviceFamily : Type 0 where
  any bit word double_word : DeviceFamily

pub record BlockTemplate : Type 0 where
  pub name : String
  pub repeat_field : String
  pub fields : List FieldSpec
  pub device_family : Option DeviceFamily

pub record Limits : Type 0 where
  pub word_points : Option ℕ
  pub dword_points : Option ℕ
  pub bit_points : Option ℕ

pub data SubcommandSpec : Type 0 where
  single : ℕ → SubcommandSpec
  per_series : List (String × ℕ) → SubcommandSpec

pub data ResponseEntry : Type 0 where
  block_words : String → Bool → ResponseEntry
  block_bits_packed : String → Bool → ResponseEntry
  block_nibbles : String → Bool → ResponseEntry
  hex_text : String → ResponseEntry

pub record NameField : Type 0 where
  pub jp : Option String
  pub en : Option String

pub record CommandSpec : Type 0 where
  pub id : Command
  pub name : Option NameField
  pub command_code : ℕ
  pub subcommand : Option SubcommandSpec
  pub device_family : DeviceFamily
  pub request_fields : List FieldSpec
  pub response_format : List String
  pub response_entries : List ResponseEntry
  pub block_templates : List BlockTemplate
  pub limits : Option Limits

-- `map.get(key)`, or else the first value
first_value : List (String × ℕ) → Option ℕ
first_value [] = none
first_value ((k, v) ∷ m) = some v

pub get_or_first : List (String × ℕ) → String → List (String × ℕ) → Option ℕ
get_or_first all key [] = first_value all
get_or_first all key ((k, v) ∷ m) =
    let rest = get_or_first all key m in if str_eq k key then some v else rest

pub series_key : Option PlcSeries → String
series_key none = "Q"
series_key (some q) = "Q"
series_key (some r) = "R"

unfoldable pub resolved : Option SubcommandSpec → Option PlcSeries → Option ℕ
resolved none series = none
resolved (some (single v)) series = some v
resolved (some (per_series m)) series = get_or_first m (series_key series) m

-- The subcommand that `get_num_field` and `find_by_code_and_sub` resolve for a series.
unfoldable pub effective_sub : Option SubcommandSpec → Option PlcSeries → ℕ
effective_sub sub series = get_or (resolved sub series) 0

-- `find_by_code_and_sub`, over the specifications in the registry's iteration order
find_by_code_and_sub : List CommandSpec → ℕ → ℕ → Option PlcSeries → Option CommandSpec
find_by_code_and_sub [] command_code subcommand series = none
find_by_code_and_sub (spec ∷ specs) command_code subcommand series =
    let rest = find_by_code_and_sub specs command_code subcommand series in
    if spec.command_code == command_code && effective_sub spec.subcommand series == subcommand
    then some spec
    else rest

-- The loop of `write_n_bytes`: byte by byte from the low end.
unfoldable pub low_bytes : ℕ → ℕ → Bytes
low_bytes zero v = []
low_bytes (suc n) v = bit_and v 0xFF ∷ low_bytes n (v >> 8)

-- The stack buffer of 8 bytes and the heap one hold the same bytes.
unfoldable pub write_n_bytes : Bytes → ℕ → ℕ → Bool → Bytes
unfolding low_bytes
write_n_bytes out n v le = out ++ (if le then low_bytes n v else reverse (low_bytes n v))

-- The width and the byte order of a number field in the series' layout. The fields of the blocks
-- have no rule for the command codes.
unfoldable pub effective_layout : String → Option PlcSeries → ℕ → Bool → ℕ × Bool
effective_layout name series n le =
    if str_eq name "device_code"
    then (elim series [ some r ↦ (2, true) | some q ↦ (1, true) | none ↦ (1, true) ])
    else if str_eq name "start_addr"
    then (elim series [ some r ↦ (4, true) | some q ↦ (n, le) | none ↦ (n, le) ])
    else (n, le)
