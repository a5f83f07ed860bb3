-- ===== src/Registry/File/Entries.antt =====
-- The entries of a file of commands (src/command_registry.rs), and what is read off single values.
use Prim.Native.String.{String}
use melsec_mc.Prelude.{
  ℕ, ℤ, pos, negsuc, ◌||◌, Option, none, some, List, [], ◌∷◌, leb, str_eq, if◌then◌else◌,
}
use melsec_mc.Error.{Message, Result, ok, ◌>>=◌, toml_parse_error, toml_parse_error_at}
use melsec_mc.TomlHelpers.{extract_line_col_from_msg}
use melsec_mc.Command.{Command}
use melsec_mc.Command as Command
use melsec_mc.Registry.{
  FieldSpec, DeviceFamily, any, bit, word, double_word, BlockTemplate, NameField, CommandSpec,
}
use melsec_mc.Registry.Formats.{parse_field_specs}

pub record Toml : Type 1 where
  pub Value : Type 0
  pub as_integer : Value → Option ℤ
  pub as_table : Value → Option (List (String × Value))

pub record BlockTemplateRaw : Type 0 where
  pub name : String
  pub repeat_field : String
  pub fields : List String
  pub device_family : Option String

-- `Some("Bit" | "bit")` and so on; any other text is `Any`.
unfoldable pub family_named : String → DeviceFamily
family_named s =
    if str_eq s "Bit" || str_eq s "bit"
    then bit
    else if str_eq s "Word" || str_eq s "word"
    then word
    else if str_eq s "DoubleWord" || str_eq s "doubleword"
    then double_word
    else any

unfoldable pub command_family : Option String → DeviceFamily
command_family none = any
command_family (some s) = family_named s

unfoldable pub template_family : Option String → Option DeviceFamily
template_family none = none
template_family (some s) = some (family_named s)

unfoldable pub template_of : BlockTemplateRaw → List FieldSpec → BlockTemplate
template_of raw fields = record {
  name = raw.name;
  repeat_field = raw.repeat_field;
  fields = fields;
  device_family = template_family raw.device_family;
}

unfoldable pub parse_templates : List BlockTemplateRaw → Result (List BlockTemplate)
parse_templates [] = ok []
parse_templates (raw ∷ raws) = do
  fields ← parse_field_specs raw.fields
  templates ← parse_templates raws
  ok (template_of raw fields ∷ templates)

unfoldable pub parse_block_templates : Option (List BlockTemplateRaw) → Result (List BlockTemplate)
parse_block_templates none = ok []
parse_block_templates (some raws) = parse_templates raws

-- `u16::try_from` and `u64::try_from` of an `i64`
unfoldable pub u16_of : ℤ → Option ℕ
u16_of (negsuc n) = none
u16_of (pos n) = if leb n 0xFFFF then some n else none

unfoldable pub u64_of : ℤ → Option ℕ
u64_of (negsuc n) = none
u64_of (pos n) = some n

-- `by_id.insert(..)`; the ids of two commands differ.
unfoldable pub insert_spec :
    (Command → Option CommandSpec) → Command → CommandSpec → Command → Option CommandSpec
insert_spec m id spec id' =
    if str_eq (Command.as_str id) (Command.as_str id') then some spec else m id'

-- The error of a file that toml refuses, with the position if its text names one.
unfoldable pub file_error : String → Message
file_error e = elim (extract_line_col_from_msg e) [
  | some (line, col) ↦ toml_parse_error_at line col e
  | none ↦ toml_parse_error e
]

-- A `[[command]]` entry. What only the documentation reads is left out.
pub record CommandSpecRaw (V : Type 0) : Type 0 where
  pub id : Command
  pub name : Option NameField
  pub command_code : ℕ
  pub subcommand : Option V
  pub device_family : Option String
  pub limits : Option V
  pub request_format : List String
  pub response_format : List String
  pub block_templates : Option (List BlockTemplateRaw)
