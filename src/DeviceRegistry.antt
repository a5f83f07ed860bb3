-- ===== src/DeviceRegistry.antt =====
-- src/device_registry.rs: validating the entries of a device file, and the overrides that are
-- registered for the process. Reading a file and finding it are left out.
pub mod Validate
pub mod Overrides
mod Files
use Prim.Native.String.{String}
use melsec_mc.Prelude.{
  or_nil, ℕ, Bool, true, false, not, ◌||◌, Option, none, some, List, [], ◌∷◌, ◌⊎◌, inl, inr, leb,
  ltb, str_eq, if◌then◌else◌,
}
use melsec_mc.Error.{
  require, Message, Result, ok, fail, ◌>>=◌, ◌>>◌, device_toml_parse_error,
  device_toml_parse_error_at, device_symbol_empty, duplicate_device_symbol, device_code_above_u16,
  invalid_device_category, gui_name_empty, invalid_compatible_series, bit_pos_out_of_range,
  device_overrides_already_registered,
}
use melsec_mc.Text.{is_empty, trim}
use melsec_mc.TomlHelpers.{extract_line_col_from_msg}

pub record BitMapEntry : Type 0 where
  pub bit_index : ℕ
  pub byte_offset : Option ℕ
  pub bit_pos : ℕ

pub record DeviceRaw : Type 0 where
  pub symbol : String
  pub code : ℕ
  pub category : String
  pub base : Option String
  pub description : Option String
  pub gui_name : Option String
  pub compatible_series : Option (List String)
  pub bit_mapping : Option (List BitMapEntry)

-- The error of a file that toml refuses, with the position if its text names one.
unfoldable pub parse_error : String → Message
parse_error e = elim (extract_line_col_from_msg e) [
  | some (line, col) ↦ device_toml_parse_error_at line col e
  | none ↦ device_toml_parse_error e
]

-- `toml::from_str` gives the entries or the text of its error.
unfoldable pub from_str : (String → String ⊎ List DeviceRaw) → String → Result (List DeviceRaw)
from_str from_toml s = elim (from_toml s) [
  | inl e ↦ fail (parse_error e)
  | inr devices ↦ ok devices
]

-- `HashSet::contains`
abbrev pub seen : String → List String → Bool
seen s [] = false
seen s (t ∷ ts) = str_eq t s || seen s ts

abbrev pub is_category : String → Bool
is_category s = str_eq s "Bit" || str_eq s "Word" || str_eq s "DoubleWord"

abbrev pub is_series : String → Bool
is_series s = str_eq s "Q" || str_eq s "R"

unfoldable pub check_gui_name : String → Option String → Result (Unit {0})
check_gui_name symbol none = ok tt
check_gui_name symbol (some g) = require (not (is_empty (trim g))) (gui_name_empty symbol)

unfoldable pub check_series : String → List String → Result (Unit {0})
check_series symbol [] = ok tt
check_series symbol (s ∷ ss) =
    require (is_series s) (invalid_compatible_series symbol s) >> check_series symbol ss

unfoldable pub check_bits : String → List BitMapEntry → Result (Unit {0})
check_bits symbol [] = ok tt
check_bits symbol (e ∷ es) =
    require (ltb e.bit_pos 8) (bit_pos_out_of_range symbol e.bit_pos) >> check_bits symbol es

-- One round of the loop of `validate_str`, with the symbols before.
unfoldable pub check_device : List String → DeviceRaw → Result (Unit {0})
check_device before d = do
  require (not (is_empty (trim d.symbol))) device_symbol_empty
  require (not (seen d.symbol before)) (duplicate_device_symbol d.symbol)
  require (leb d.code 0xFFFF) (device_code_above_u16 d.code)
  require (is_category d.category) (invalid_device_category d.category)
  check_gui_name d.symbol d.gui_name
  check_series d.symbol (or_nil d.compatible_series)
  check_bits d.symbol (or_nil d.bit_mapping)

unfoldable pub check_devices : List String → List DeviceRaw → Result (Unit {0})
check_devices before [] = ok tt
check_devices before (d ∷ ds) = check_device before d >> check_devices (d.symbol ∷ before) ds

unfoldable pub validate_str : (String → String ⊎ List DeviceRaw) → String → Result (Unit {0})
unfolding from_str
validate_str from_toml s = do devices ← from_str from_toml s; check_devices [] devices

pub record DeviceOverride : Type 0 where
  pub symbol : String
  pub code : ℕ
  pub category : String
  pub base : Option String
  pub description : Option String
  pub gui_name : Option String
  pub compatible_series : Option (List String)
  pub bit_mapping : Option (List BitMapEntry)

abbrev pub override_of : DeviceRaw → DeviceOverride
override_of d = record {
  symbol = d.symbol;
  code = d.code;
  category = d.category;
  base = d.base;
  description = d.description;
  gui_name = d.gui_name;
  compatible_series = d.compatible_series;
  bit_mapping = d.bit_mapping;
}

-- `HashMap<String, DeviceOverride>`
abbrev pub OverrideMap : Type 0
OverrideMap = String → Option DeviceOverride

unfoldable pub insert_override : OverrideMap → DeviceRaw → OverrideMap
insert_override m d sym = if str_eq d.symbol sym then some (override_of d) else m sym

unfoldable pub overrides : OverrideMap → List DeviceRaw → OverrideMap
overrides m [] = m
overrides m (d ∷ ds) = overrides (insert_override m d) ds

-- `DEVICE_OVERRIDES`, `none` until it is set; it is set once.
unfoldable pub register_overrides :
    List DeviceRaw → Option OverrideMap → Result (Unit {0}) × Option OverrideMap
register_overrides ds none = (ok tt, some (overrides (λ sym. none) ds))
register_overrides ds (some m) = (fail device_overrides_already_registered, some m)

unfoldable pub get_override_by_symbol : Option OverrideMap → String → Option DeviceOverride
get_override_by_symbol none sym = none
get_override_by_symbol (some m) sym = m sym
