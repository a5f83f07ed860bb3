-- ===== src/Device/Load.antt =====
-- src/device.rs: `parse_devices_toml`, and the list of devices that is used at run time.
pub mod Loaded
pub mod Names
pub mod Runtime
use melsec_mc.Prelude.{
  ℕ, String, Bool, true, false, Option, none, some, List, [], ◌∷◌, ◌⊎◌, inl, inr, str_eq, leb,
  if◌then◌else◌,
}
use melsec_mc.Error.{
  Result, ok, err, panic, fail, ◌>>=◌, devices_toml_parse_error, invalid_category, invalid_base,
  invalid_series, device_code_too_large,
}
use melsec_mc.Files.{System, FilePath, parent, define_path, exists, read_to_string}
use melsec_mc.PlcSeries.{PlcSeries, q, r}
use melsec_mc.Device.{Device, DeviceType, bit, word, double_word, NumberBase, decimal, hexadecimal}
use melsec_mc.Device.Codes.{Entries, try_from}

-- A `[[device]]` entry.
pub record RawDevice : Type 0 where
  pub symbol : String
  pub code : ℕ
  pub category : String
  pub base : String
  pub description : String
  pub series : List String

unfoldable pub category_of : String → String → Result DeviceType
category_of symbol s =
    if str_eq s "Bit"
    then ok bit
    else if str_eq s "Word"
    then ok word
    else if str_eq s "DoubleWord"
    then ok double_word
    else fail (invalid_category symbol s)

unfoldable pub base_of : String → String → Result NumberBase
base_of symbol s =
    if str_eq s "Decimal"
    then ok decimal
    else if str_eq s "Hexadecimal"
    then ok hexadecimal
    else fail (invalid_base symbol s)

unfoldable pub series_of : String → List String → Result (List PlcSeries)
series_of symbol [] = ok []
series_of symbol (s ∷ ss) =
    let rest = series_of symbol ss in
    if str_eq s "Q"
    then (rest >>= λ tokens. ok (q ∷ tokens))
    else if str_eq s "R"
    then (rest >>= λ tokens. ok (r ∷ tokens))
    else fail (invalid_series symbol s)

-- `u8::try_from`, then `DeviceCode::try_from`
unfoldable pub code_of : Entries → String → ℕ → Result ℕ
unfolding try_from
code_of entries symbol code =
    if leb code 255 then try_from entries code else fail (device_code_too_large symbol code)

abbrev pub built : RawDevice → DeviceType → NumberBase → List PlcSeries → ℕ → Device
built d category base series code = record {
  category = category;
  base = base;
  device_code = code;
  description = d.description;
  supported_series = series;
}

unfoldable pub load_device : Entries → RawDevice → Result Device
unfolding category_of base_of series_of code_of
load_device entries d = do
  category ← category_of d.symbol d.category
  base ← base_of d.symbol d.base
  series ← series_of d.symbol d.series
  code ← code_of entries d.symbol d.code
  ok (built d category base series code)

unfoldable pub load_devices : Entries → List RawDevice → Result (List Device)
unfolding load_device
load_devices entries [] = ok []
load_devices entries (d ∷ ds) = do
  device ← load_device entries d
  devices ← load_devices entries ds
  ok (device ∷ devices)

-- `toml::from_str` gives the entries or the text of its error.
unfoldable pub parse_devices_toml :
    (String → String ⊎ List RawDevice) → Entries → String → Result (List Device)
unfolding load_devices
parse_devices_toml from_toml entries s = elim (from_toml s) [
  | inl e ↦ fail (devices_toml_parse_error e)
  | inr raws ↦ load_devices entries raws
]

-- `get_compiled_devices_slice`
unfoldable pub compiled_devices : Result (List Device) → List Device
compiled_devices (ok devices) = devices
compiled_devices (err e) = []
compiled_devices panic = []

-- `RUNTIME_DEVICES_STORE.set`: only the first counts.
abbrev pub set_once : Option (List Device) → Result (List Device) → Option (List Device)
set_once (some devices) parsed = some devices
set_once none (ok devices) = some devices
set_once none (err e) = none
set_once none panic = none

-- `find_define_device_toml`
unfoldable pub find_define_device_toml : System → Option FilePath
unfolding parent define_path exists
find_define_device_toml sys = elim sys.current_exe [
  | inl e ↦ none
  | inr exe ↦ elim (parent exe) [
    | none ↦ none
    | some dir ↦
        if exists sys (define_path dir "device.toml")
        then some (define_path dir "device.toml")
        else none
  ]
]

-- The text of `define/device.toml` where it can be read.
unfoldable pub text_of : String ⊎ String → Option String
text_of (inl e) = none
text_of (inr s) = some s

unfoldable pub define_text : System → Option String
unfolding find_define_device_toml
define_text sys = elim (find_define_device_toml sys) [
  | none ↦ none
  | some p ↦ text_of (read_to_string sys p)
]

-- The store after the attempt to fill it.
unfoldable pub store_after :
    (String → String ⊎ List RawDevice)
    → Entries
    → Option String
    → Option (List Device)
    → Option (List Device)
store_after from_toml entries none store = store
store_after from_toml entries (some s) store =
    set_once store (parse_devices_toml from_toml entries s)

unfoldable pub list_used :
    (String → String ⊎ List RawDevice) → Entries → String → Option (List Device) → List Device
list_used from_toml entries embedded (some devices) = devices
list_used from_toml entries embedded none =
    compiled_devices (parse_devices_toml from_toml entries embedded)

-- `get_runtime_devices_slice`, with the text of the embedded file, and the store before and after.
unfoldable pub runtime_devices :
    (String → String ⊎ List RawDevice)
    → Entries
    → String
    → System
    → Option (List Device)
    → List Device × Option (List Device)
runtime_devices from_toml entries embedded sys store =
    let after = store_after from_toml entries (define_text sys) store in
    (list_used from_toml entries embedded after, after)
