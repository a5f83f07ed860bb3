-- ===== src/Device.antt =====
-- src/device.rs: the devices' tables. The devices are those of the TOML file, in its order;
-- Device.Codes gives their codes names, Device.Load makes the devices of the file's entries, and
-- Device.Address reads a device and an address from a text.
pub mod Codes
pub mod Symbol
pub mod Load
pub mod Address
mod Tests
use melsec_mc.Prelude.{
  ℕ, String, Bool, true, false, Option, none, some, List, [], ◌∷◌, ◌==◌, str_eq, ◌||◌,
  if◌then◌else◌,
}
use melsec_mc.PlcSeries.{PlcSeries, q, r}

pub data DeviceType : Type 0 where
  bit word double_word : DeviceType

pub data NumberBase : Type 0 where
  decimal hexadecimal : NumberBase

pub record Device : Type 0 where
  pub category : DeviceType
  pub base : NumberBase
  pub device_code : ℕ
  pub description : String
  pub supported_series : List PlcSeries

-- `symbol_str`, with the codes' names, and the code in the formats of the two series.
abbrev pub symbol_str : (ℕ → String) → Device → String
symbol_str names d = names d.device_code

device_code_q : Device → ℕ
device_code_q d = d.device_code

device_code_r : Device → ℕ
device_code_r d = d.device_code

-- The maps `DEVICE_BY_CODE` and `DEVICE_BY_SYMBOL`: of two devices with a key the later is kept.
unfoldable pub device_by_code : List Device → ℕ → Option Device
device_by_code [] code = none
device_by_code (d ∷ ds) code = elim (device_by_code ds code) [
  | some later ↦ some later
  | none ↦ if d.device_code == code then some d else none
]

unfoldable pub device_by_symbol : (ℕ → String) → List Device → String → Option Device
device_by_symbol names [] sym = none
device_by_symbol names (d ∷ ds) sym = elim (device_by_symbol names ds sym) [
  | some later ↦ some later
  | none ↦ if str_eq (symbol_str names d) sym then some d else none
]

-- `supported_series.contains(..)`
contains : PlcSeries → List PlcSeries → Bool
contains s [] = false
contains q (q ∷ l) = true
contains q (r ∷ l) = contains q l
contains r (q ∷ l) = contains r l
contains r (r ∷ l) = true

-- `get_q_devices()` and `get_r_devices()`
devices_of : PlcSeries → List Device → List Device
devices_of s [] = []
devices_of s (d ∷ ds) =
    let rest = devices_of s ds in if contains s d.supported_series then d ∷ rest else rest
