-- ===== src/DeviceRegistry/Files.antt =====
-- src/device_registry.rs: device files that are read from a path.
use Prim.Native.String.{String}
use melsec_mc.Prelude.{Option, none, some, List, ◌⊎◌, inl, inr}
use melsec_mc.Error.{Result, ok, err, panic, fail, read_device_toml, define_device_toml_not_found}
use melsec_mc.Files.{System, FilePath, read_to_string}
use melsec_mc.Device.Load.{find_define_device_toml}
use melsec_mc.DeviceRegistry.{DeviceRaw, OverrideMap, from_str, validate_str, register_overrides}

module _ (from_toml : String → String ⊎ List DeviceRaw) (sys : System) where
  unfoldable from_path : FilePath → Result (List DeviceRaw)
  from_path p = elim (read_to_string sys p) [
    | inl e ↦ fail (read_device_toml e)
    | inr s ↦ from_str from_toml s
  ]

  unfoldable from_exe_define : Result (List DeviceRaw)
  unfolding from_path
  from_exe_define = elim (find_define_device_toml sys) [
    | none ↦ fail define_device_toml_not_found
    | some p ↦ from_path p
  ]

  unfoldable registered :
      Result (List DeviceRaw) → Option OverrideMap → Result (Unit {0}) × Option OverrideMap
  registered (ok ds) m = register_overrides ds m
  registered (err e) m = (err e, m)
  registered panic m = (panic, m)

  register_overrides_from_path :
      FilePath → Option OverrideMap → Result (Unit {0}) × Option OverrideMap
  register_overrides_from_path p m = registered (from_path p) m

  register_overrides_from_exe_define : Option OverrideMap → Result (Unit {0}) × Option OverrideMap
  register_overrides_from_exe_define m = registered from_exe_define m

  validate_exe_define : Result (Unit {0})
  validate_exe_define = elim (find_define_device_toml sys) [
    | none ↦ fail define_device_toml_not_found
    | some p ↦ elim (read_to_string sys p) [
      | inl e ↦ fail (read_device_toml e)
      | inr s ↦ validate_str from_toml s
    ]
  ]
