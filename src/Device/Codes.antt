-- ===== src/Device/Codes.antt =====
-- src/device_code.rs: the names of the device codes. `CODE_BY_NAME` is what the embedded file
-- gives; `NAME_BY_CODE` is filled from it in the order in which a `HashMap` iterates, which no
-- one promises, so the entries in that order are an argument.
pub mod Clash
pub mod Named
use melsec_mc.Prelude.{
  ℕ, String, Option, none, some, List, [], ◌∷◌, ◌==◌, str_eq, leb, if◌then◌else◌, ◌&&◌,
}
use mathlib.Core.Option.{get_or}
use melsec_mc.Error.{Result, ok, fail, unknown_device, unknown_device_code}

pub record RawCode : Type 0 where
  pub symbol : String
  pub code : ℕ

-- A code above 255 is skipped; of two entries with one symbol the later is kept.
unfoldable pub code_by_name : List RawCode → String → Option ℕ
code_by_name [] name = none
code_by_name (d ∷ ds) name = elim (code_by_name ds name) [
  | some later ↦ some later
  | none ↦ if leb d.code 255 && str_eq d.symbol name then some d.code else none
]

-- The entries of `CODE_BY_NAME` in the order of their iteration.
abbrev pub Entries : Type 0
Entries = List (String × ℕ)

unfoldable pub name_by_code : Entries → ℕ → Option String
name_by_code [] code = none
name_by_code ((name, c) ∷ entries) code = elim (name_by_code entries code) [
  | some later ↦ some later
  | none ↦ if c == code then some name else none
]

unfoldable pub as_str : Entries → ℕ → String
as_str entries code = get_or (name_by_code entries code) "UNKNOWN"

-- `DeviceCode::from_str` and `DeviceCode::from_name`
known_code : String → Option ℕ → Result ℕ
known_code name none = fail (unknown_device name)
known_code name (some code) = ok code

from_str : List RawCode → String → Result ℕ
from_str codes name = known_code name (code_by_name codes name)

from_name : List RawCode → String → Result ℕ
from_name codes name = from_str codes name

-- `DeviceCode::try_from`
unfoldable pub try_from : Entries → ℕ → Result ℕ
try_from entries v = elim (name_by_code entries v) [
  | some name ↦ ok v
  | none ↦ fail (unknown_device_code v)
]
