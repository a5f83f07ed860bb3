-- ===== src/Registry/Validate.antt =====
-- src/command_registry.rs: `CommandRegistry::validate_str`, on the entries that toml gives.
pub mod Accepted
use Prim.Native.String.{String}
use Prim.Native.String as String
use melsec_mc.Prelude.{
  or_nil, ℕ, Bool, true, false, not, ◌||◌, Option, none, some, List, [], ◌∷◌, ◌++◌, map, ◌⊎◌, inl,
  inr, str_eq, if◌then◌else◌,
}
use melsec_mc.Error.{
  require, Message, Result, ok, fail, ◌>>=◌, ◌>>◌, duplicate_command_id, repeat_field_not_found,
  invalid_block_family, invalid_response_entry, response_name_not_found,
}
use melsec_mc.Text.{split}
use melsec_mc.Command.{Command}
use melsec_mc.Command as Command
use melsec_mc.Registry.{FieldSpec}
use melsec_mc.Registry.Formats.{parse_field_specs}
use melsec_mc.Registry.File.{BlockTemplateRaw, CommandSpecRaw, file_error}

-- `names.iter().any(|n| n == name)`
abbrev pub has : List String → String → Bool
has [] name = false
has (n ∷ ns) name = str_eq n name || has ns name

abbrev pub names_of : List FieldSpec → List String
names_of = map (λ (f : FieldSpec). f.name)

abbrev pub is_family : Option String → Bool
is_family none = true
is_family (some s) =
    str_eq s "Bit"
    || str_eq s "bit"
    || str_eq s "Word"
    || str_eq s "word"
    || str_eq s "DoubleWord"
    || str_eq s "doubleword"
    || str_eq s "Any"
    || str_eq s "any"

abbrev pub text_of : Option String → String
text_of none = ""
text_of (some s) = s

unfoldable pub check_template : String → List String → BlockTemplateRaw → Result (Unit {0})
check_template id names bt = do
  require (has names bt.repeat_field) (repeat_field_not_found bt.name bt.repeat_field id)
  require (is_family bt.device_family) (invalid_block_family (text_of bt.device_family) bt.name id)
  fields ← parse_field_specs bt.fields
  ok tt

unfoldable pub check_templates : String → List String → List BlockTemplateRaw → Result (Unit {0})
check_templates id names [] = ok tt
check_templates id names (bt ∷ bts) = check_template id names bt >> check_templates id names bts

-- A response's name is a request field's, or that of a template with an "s".
abbrev pub plurals : List BlockTemplateRaw → List String
plurals = map (λ (bt : BlockTemplateRaw). String.◌++◌ bt.name "s")

unfoldable pub check_response : String → List String → String → List String → Result (Unit {0})
check_response id names rf (name ∷ kind ∷ params) =
    require (has names name) (response_name_not_found name id)
check_response id names rf (name ∷ []) = fail (invalid_response_entry rf)
check_response id names rf [] = fail (invalid_response_entry rf)

unfoldable pub check_responses : String → List String → List String → Result (Unit {0})
check_responses id names [] = ok tt
check_responses id names (rf ∷ rfs) =
    check_response id names rf (split b':' rf) >> check_responses id names rfs

-- One round of the loop, with the ids before.
unfoldable pub check_command : {V : Type 0} → List String → CommandSpecRaw V → Result (Unit {0})
check_command before cmd = do
  require (not (has before (Command.as_str cmd.id))) (duplicate_command_id (Command.as_str cmd.id))
  fields ← parse_field_specs cmd.request_format
  check_templates (Command.as_str cmd.id) (names_of fields) (or_nil cmd.block_templates)
  check_responses (Command.as_str cmd.id) (names_of fields ++ plurals (or_nil cmd.block_templates))
      cmd.response_format

unfoldable pub check_commands :
    {V : Type 0} → List String → List (CommandSpecRaw V) → Result (Unit {0})
check_commands before [] = ok tt
check_commands before (cmd ∷ cmds) =
    check_command before cmd >> check_commands (Command.as_str cmd.id ∷ before) cmds

unfoldable pub validate_str :
    {V : Type 0} → (String → String ⊎ List (CommandSpecRaw V)) → String → Result (Unit {0})
validate_str from_toml s = elim (from_toml s) [
  | inl e ↦ fail (file_error e)
  | inr cmds ↦ check_commands [] cmds
]
