-- ===== src/Device/Address.antt =====
-- src/device.rs: `parse_device_and_address`, and what the parameter helpers of
-- src/command_registry.rs make of a device's text.
pub mod Letters
pub mod Parsed
use Prim.Native.Char.{Char}
use Prim.Native.String.{String}
use melsec_mc.Prelude.{ℕ, Option, none, some, List, ltb, if◌then◌else◌}
use melsec_mc.Error.{
  Result, ok, err, panic, fail, empty_device_string, invalid_device_string, missing_numeric_address,
  unknown_device_symbol, invalid_numeric_address, address_out_of_range,
}
use melsec_mc.Text.{
  is_empty, trim, leading_letters, count, drop_chars, all_letters, parse_uint, max_u32,
  to_uppercase,
}
use melsec_mc.Device.{Device, NumberBase, decimal, hexadecimal, device_by_symbol}

abbrev pub radix_of : NumberBase → ℕ
radix_of decimal = 10
radix_of hexadecimal = 16

-- What Unicode says of the upper case of a char that is not ASCII, the codes' names, the devices.
module _ (other : Char → String) (names : ℕ → String) (devices : List Device) where
  unfoldable pub address_of : String → String → Device → Result (Device × ℕ)
  address_of symbol num_part device = elim (parse_uint (radix_of device.base) max_u32 num_part) [
    | none ↦ fail (invalid_numeric_address num_part symbol)
    | some addr ↦ if ltb 0xFFFFFF addr then fail (address_out_of_range addr) else ok (device, addr)
  ]

  unfoldable pub with_symbol : String → String → Result (Device × ℕ)
  with_symbol s symbol =
      if is_empty symbol
      then fail (invalid_device_string s)
      else let num_part = trim (drop_chars (count symbol) s) in
        if is_empty num_part
        then fail (missing_numeric_address s)
        else elim (device_by_symbol names devices symbol) [
          | none ↦ fail (unknown_device_symbol symbol)
          | some device ↦ address_of symbol num_part device
        ]

  unfoldable pub parse_device_and_address : String → Result (Device × ℕ)
  parse_device_and_address text =
      let s = trim text in
      if is_empty s
      then fail empty_device_string
      else with_symbol s (leading_letters (to_uppercase other s))
