-- ===== src/Device/Tests.antt =====
-- Values at which the theorems on device.rs and device_code.rs apply.
use Prim.Native.Char.{Char}
use Prim.Native.String.{String, [], ◌∷◌}
use melsec_mc.Prelude.{
  Option, some, ◌≡◌, refl, arith, none, List, [], ◌∷◌, ◌⊎◌, ◌↔◌, inl, inr, str_eq, if◌then◌else◌,
  eq_iff,
}
use melsec_mc.Error.{ok}
use melsec_mc.PlcSeries.{q, r}
use melsec_mc.Text.{trim, is_empty, is_ascii_digit, is_ascii_alphabetic, to_uppercase, to_digit}
use melsec_mc.Device.{Device, word, decimal, device_by_symbol}
use melsec_mc.Device.Codes.{RawCode, code_by_name, Entries, name_by_code, as_str}
use melsec_mc.Device.Codes.Clash.{device_by_symbol_clash}
use melsec_mc.Files.{System, FilePath}
use melsec_mc.Device.Load.{RawDevice, load_devices, parse_devices_toml}
use melsec_mc.Device.Load.Runtime.{HasDefine, lists_used, lists_used_lem}
use melsec_mc.Device.Load.Loaded.{AllLoaded, load_devices_iff}
use melsec_mc.Device.Address.{parse_device_and_address}
use melsec_mc.Device.Address.Parsed.{checked, parse_device_and_address_lem}

-- Two of the entries of src/devices.toml have the code 0x52.
abbrev codes : List RawCode
codes =
    record { symbol = "D"; code = 0xA8 }
    ∷ record { symbol = "LTN"; code = 0x52 }
    ∷ record { symbol = "LSTN"; code = 0x52 }
    ∷ []

abbrev entries : Entries
entries = ("LSTN", 0x52) ∷ ("D", 0xA8) ∷ ("LTN", 0x52) ∷ []

abbrev register_d : Device
register_d = record {
  category = word;
  base = decimal;
  device_code = 0xA8;
  description = "data register";
  supported_series = q ∷ r ∷ [];
}

abbrev timer : Device
timer = record {
  category = word;
  base = decimal;
  device_code = 0x52;
  description = "timer";
  supported_series = q ∷ r ∷ [];
}

device_by_symbol_clash_example :
    (device_by_symbol (as_str entries) (register_d ∷ timer ∷ timer ∷ []) "LTN" ≡ none)
    ⊎ (device_by_symbol (as_str entries) (register_d ∷ timer ∷ timer ∷ []) "LSTN" ≡ none)
unfolding code_by_name
device_by_symbol_clash_example =
    device_by_symbol_clash codes entries (refl, (refl, (refl, tt)))
      (register_d ∷ timer ∷ timer ∷ []) "LTN" "LSTN" 0x52 (ground (arith, eq_iff "LTN" "LSTN"))
      (ground (arith, eq_iff "LTN" "UNKNOWN")) (ground (arith, eq_iff "LSTN" "UNKNOWN")) refl refl

abbrev raw_d : RawDevice
raw_d = record {
  symbol = "D";
  code = 0xA8;
  category = "Word";
  base = "Decimal";
  description = "data register";
  series = "Q" ∷ "R" ∷ [];
}

load_devices_iff_example :
    (load_devices entries (raw_d ∷ []) ≡ ok (register_d ∷ []))
    ↔ AllLoaded entries (raw_d ∷ []) (register_d ∷ [])
load_devices_iff_example = load_devices_iff entries (raw_d ∷ []) (register_d ∷ [])

raw_d_loaded : load_devices entries (raw_d ∷ []) ≡ ok (register_d ∷ [])
unfolding load_devices name_by_code
raw_d_loaded = refl

abbrev no_upper : Char → String
no_upper c = ""

parse_device_and_address_lem_example :
    parse_device_and_address no_upper (as_str entries) (register_d ∷ []) " d100 "
    ≡ checked (to_uppercase no_upper "d") "100" register_d 100
unfolding trim is_empty is_ascii_digit is_ascii_alphabetic to_uppercase device_by_symbol as_str
    name_by_code to_digit
parse_device_and_address_lem_example =
    parse_device_and_address_lem no_upper (as_str entries) (register_d ∷ []) " d100 " "d" "1" "00"
      register_d 100 refl (refl, tt) refl refl refl refl

-- The executable is bin/app.
abbrev without_file : System
without_file = record {
  current_exe = inr ("app" ∷ "bin" ∷ []);
  file = λ p. none;
  not_found = "not found";
}

abbrev define_only : FilePath → Option (String ⊎ String)
define_only [] = none
define_only (name ∷ dir) = if str_eq name "device.toml" then some (inr "the devices") else none

abbrev with_file : System
with_file = record without_file { file = define_only }

-- The embedded text has a timer, which the file does not have.
abbrev raw_timer : RawDevice
raw_timer = record raw_d { symbol = "LTN"; code = 0x52; description = "timer" }

abbrev given : String → String ⊎ List RawDevice
given s = if str_eq s "the devices" then inr (raw_d ∷ []) else inr (raw_timer ∷ [])

given_loaded : parse_devices_toml given entries "the devices" ≡ ok (register_d ∷ [])
unfolding parse_devices_toml load_devices name_by_code
given_loaded = refl

embedded_loaded : parse_devices_toml given entries "embedded" ≡ ok (timer ∷ [])
unfolding parse_devices_toml load_devices name_by_code
embedded_loaded = refl

with_file-HasDefine : HasDefine with_file "the devices"
with_file-HasDefine = record { app = "app"; dir = "bin" ∷ []; started = refl; there = refl }

lists_used_lem_example :
    lists_used given entries "embedded" (without_file ∷ with_file ∷ without_file ∷ []) none
    ≡ (timer ∷ []) ∷ (register_d ∷ []) ∷ (register_d ∷ []) ∷ []
lists_used_lem_example =
    lists_used_lem given entries "embedded" (without_file ∷ []) (without_file ∷ []) with_file
      "the devices" (register_d ∷ []) (timer ∷ []) embedded_loaded
      (inl (inr (inr ("app", "bin" ∷ [], refl, inl refl))), tt) with_file-HasDefine given_loaded
