-- ===== src/Tests.antt =====
-- Values at which the theorems on device_registry.rs, error_codes.rs, toml_helpers.rs and lib.rs
-- apply.
use Prim.Native.String.{String, [], ◌∷◌, ◌++◌}
use melsec_mc.Prelude.{
  ◌≡◌, ◌↔◌, refl, arith, Option, none, some, List, [], ◌∷◌, ◌⊎◌, inr, All, leb, if◌then◌else◌,
}
use melsec_mc.Error.{ok}
use melsec_mc.Text.{trim, to_digit, is_ascii_digit, max_u16}
use melsec_mc.TomlHelpers.{extract_line_col_from_msg}
use melsec_mc.TomlHelpers.Position.{extract_line_col_from_msg_lem}
use melsec_mc.DeviceRegistry.{DeviceRaw, validate_str}
use melsec_mc.DeviceRegistry.Validate.{IsDevice, Fresh, validate_str_iff}
use melsec_mc.Command.{Command}
use melsec_mc.ErrorCodes.{ErrorEntry, lookup}
use melsec_mc.ErrorCodes.Load.{visit_str}
use melsec_mc.ErrorCodes.Load.Numbers.{visit_str_lem}
use melsec_mc.ErrorCodes.Merge.{last_with, or_else}
use melsec_mc.Registry.{CommandSpec}
use melsec_mc.Defaults.{Globals}
use melsec_mc.Defaults.Idempotent.{initialized, init_defaults_lem}

extract_line_col_from_msg_lem_example :
    extract_line_col_from_msg
      ("parse error at " ++ ("line " ++ ("12" ++ (", " ++ ("column " ++ ("7" ++ ": expected"))))))
    ≡ some (12, 7)
unfolding to_digit is_ascii_digit
extract_line_col_from_msg_lem_example =
    extract_line_col_from_msg_lem "parse error at " "1" "2" "7" "" ":" " expected" 12 7
      (
        refl,
        (
          refl,
          (
            refl,
            (
              refl,
              (
                refl,
                (refl, (refl, (refl, (refl, (refl, (refl, (refl, (refl, (refl, (refl, tt)))))))))),
              ),
            ),
          ),
        ),
      )
      refl (omega arith) refl (omega arith) refl

abbrev register_d : DeviceRaw
register_d = record {
  symbol = "D";
  code = 0xA8;
  category = "Word";
  base = some "Decimal";
  description = none;
  gui_name = some "D";
  compatible_series = some ("Q" ∷ []);
  bit_mapping = none;
}

abbrev device_file : String → String ⊎ List DeviceRaw
device_file s = inr (register_d ∷ register_d ∷ [])

validate_str_iff_example :
    (validate_str device_file "" ≡ ok tt)
    ↔ (All IsDevice (register_d ∷ register_d ∷ []) × Fresh [] (register_d ∷ register_d ∷ []))
validate_str_iff_example = validate_str_iff device_file "" (register_d ∷ register_d ∷ []) refl

visit_str_lem_example : visit_str " 0xC059 " ≡ (if leb 0xC059 max_u16 then some 0xC059 else none)
unfolding trim to_digit
visit_str_lem_example = visit_str_lem " 0xC059 " "C" "059" 0xC059 (inr (refl, refl))

abbrev entry : String → ErrorEntry
entry name = record { code = 0xC059; name = some name; description = none; category = none }

abbrev no_commands : Command → Option CommandSpec
no_commands id = none

abbrev unset : Globals
unset = record { commands = none; codes = none }

abbrev once : Globals
once = (initialized no_commands (entry "a" ∷ []) unset).1

init_defaults_lem_example :
    ((initialized no_commands (entry "a" ∷ []) unset).0 ≡ ok tt)
    × (once.commands ≡ some no_commands)
    × (lookup once.codes 0xC059
        ≡ or_else (last_with (entry "a" ∷ []) 0xC059) (lookup unset.codes 0xC059))
    × ((initialized no_commands (entry "a" ∷ []) once).0 ≡ ok tt)
    × ((initialized no_commands (entry "a" ∷ []) once).1.commands ≡ once.commands)
    × (lookup (initialized no_commands (entry "a" ∷ []) once).1.codes 0xC059
        ≡ lookup once.codes 0xC059)
init_defaults_lem_example = init_defaults_lem no_commands (entry "a" ∷ []) unset 0xC059
