-- ===== src/Registry/File.antt =====
-- src/command_registry.rs: a file of command definitions, `parse_command_file` and the global
-- registry. A `toml::Value` is known by what the code reads of it.
pub mod Entries
pub mod Commands
pub mod ReadWords
unfoldable pub use Entries.*
use Prim.Native.String.{String}
use melsec_mc.Prelude.{
  ℕ, ℤ, pos, negsuc, Bool, true, false, ◌||◌, Option, none, some, List, [], ◌∷◌, ◌⊎◌, inl, inr, leb,
  str_eq, if◌then◌else◌,
}
use melsec_mc.Error.{
  Message, Result, ok, err, panic, fail, ◌>>=◌, subcommand_out_of_range,
  subcommand_value_out_of_range, invalid_subcommand_type, toml_parse_error, toml_parse_error_at,
  registry_already_set, read_toml, current_exe_failed, no_executable_directory,
  commands_toml_not_found,
}
use melsec_mc.TomlHelpers.{extract_line_col_from_msg}
use melsec_mc.Files.{System, FilePath, parent, define_path, exists, read_to_string}
use melsec_mc.Command.{Command}
use melsec_mc.Command as Command
use melsec_mc.Registry.{
  FieldSpec, DeviceFamily, any, bit, word, double_word, BlockTemplate, Limits, SubcommandSpec,
  single, per_series, ResponseEntry, NameField, CommandSpec,
}
use melsec_mc.Registry.Formats.{parse_field_specs, parse_response_formats}

-- The values of toml, and the order in which a `HashMap` with such entries iterates.
module _ (t : Toml) (iterated : List (String × ℕ) → List (String × ℕ)) where
  -- A value in the table that is no integer is left out.
  unfoldable pub sub_table : List (String × t.Value) → Result (List (String × ℕ))
  sub_table [] = ok []
  sub_table ((k, v) ∷ tbl) = elim (t.as_integer v) [
    | none ↦ sub_table tbl
    | some i ↦ elim (u16_of i) [
      | none ↦ fail (subcommand_value_out_of_range i)
      | some n ↦ sub_table tbl >>= λ rest. ok ((k, n) ∷ rest)
    ]
  ]

  unfoldable pub sub_value : t.Value → Result (Option SubcommandSpec)
  sub_value v = elim (t.as_integer v) [
    | some i ↦ elim (u16_of i) [
      | some n ↦ ok (some (single n))
      | none ↦ fail (subcommand_out_of_range i)
    ]
    | none ↦ elim (t.as_table v) [
      | some tbl ↦ sub_table tbl >>= λ m. ok (some (per_series (iterated m)))
      | none ↦ fail invalid_subcommand_type
    ]
  ]

  unfoldable pub sub_spec : Option t.Value → Result (Option SubcommandSpec)
  sub_spec none = ok none
  sub_spec (some v) = sub_value v

  -- `tbl.get(key).and_then(as_integer).and_then(|i| u64::try_from(i).ok())`
  unfoldable pub points : List (String × t.Value) → String → Option ℕ
  points [] key = none
  points ((k, v) ∷ tbl) key =
      let rest = points tbl key in
      if str_eq k key then elim (t.as_integer v) [ none ↦ none | some i ↦ u64_of i ] else rest

  unfoldable pub limits_of : Option t.Value → Option Limits
  limits_of none = none
  limits_of (some v) = elim (t.as_table v) [
    | none ↦ none
    | some tbl ↦ some (record {
      word_points = points tbl "word_points";
      dword_points = points tbl "dword_points";
      bit_points = points tbl "bit_points";
    })
  ]

  unfoldable pub spec_built :
      CommandSpecRaw t.Value
      → List FieldSpec
      → List BlockTemplate
      → List ResponseEntry
      → Option SubcommandSpec
      → CommandSpec
  spec_built raw fields templates entries sub = record {
    id = raw.id;
    name = raw.name;
    command_code = raw.command_code;
    subcommand = sub;
    device_family = command_family raw.device_family;
    request_fields = fields;
    response_format = raw.response_format;
    response_entries = entries;
    block_templates = templates;
    limits = limits_of raw.limits;
  }

  -- One round of the loop of `parse_command_file`.
  unfoldable pub parse_command : CommandSpecRaw t.Value → Result CommandSpec
  parse_command raw = do
    fields ← parse_field_specs raw.request_format
    templates ← parse_block_templates raw.block_templates
    entries ← parse_response_formats raw.response_format
    sub ← sub_spec raw.subcommand
    ok (spec_built raw fields templates entries sub)

  unfoldable pub parse_commands :
      (Command → Option CommandSpec)
      → List (CommandSpecRaw t.Value)
      → Result (Command → Option CommandSpec)
  parse_commands by_id [] = ok by_id
  parse_commands by_id (raw ∷ raws) =
      parse_command raw >>= λ spec. parse_commands (insert_spec by_id raw.id spec) raws

  unfoldable pub parse_command_file :
      List (CommandSpecRaw t.Value) → Result (Command → Option CommandSpec)
  parse_command_file raws = parse_commands (λ id. none) raws

  -- `toml::from_str` gives the entries or the text of its error.
  unfoldable pub from_str :
      (String → String ⊎ List (CommandSpecRaw t.Value))
      → String
      → Result (Command → Option CommandSpec)
  from_str from_toml s = elim (from_toml s) [
    | inl e ↦ fail (file_error e)
    | inr raws ↦ parse_command_file raws
  ]

  unfoldable pub from_path :
      (String → String ⊎ List (CommandSpecRaw t.Value))
      → System
      → FilePath
      → Result (Command → Option CommandSpec)
  from_path from_toml sys p = elim (read_to_string sys p) [
    | inl e ↦ fail (read_toml e)
    | inr s ↦ from_str from_toml s
  ]

  unfoldable pub from_exe_define :
      (String → String ⊎ List (CommandSpecRaw t.Value))
      → System
      → Result (Command → Option CommandSpec)
  from_exe_define from_toml sys = elim sys.current_exe [
    | inl e ↦ fail (current_exe_failed e)
    | inr exe ↦ elim (parent exe) [
      | none ↦ fail no_executable_directory
      | some dir ↦
          let rest = from_path from_toml sys (define_path dir "commands.toml") in
          if exists sys (define_path dir "commands.toml")
          then rest
          else fail (commands_toml_not_found (define_path dir "commands.toml"))
    ]
  ]

-- `GLOBAL_COMMAND_REGISTRY`, `none` until it is set; it is set once.
abbrev pub Global : Type 0
Global = Option (Command → Option CommandSpec)

unfoldable pub set_global : (Command → Option CommandSpec) → Global → Result (Unit {0}) × Global
set_global reg none = (ok tt, some reg)
set_global reg (some old) = (fail registry_already_set, some old)

-- `load_and_set_global_from_src`, with what the embedded file gives.
unfoldable pub load_and_set_global :
    Result (Command → Option CommandSpec) → Global → Result (Unit {0}) × Global
load_and_set_global (ok reg) g = set_global reg g
load_and_set_global (err e) g = (err e, g)
load_and_set_global panic g = (panic, g)

-- `load_and_set_global_from_exe_define`
load_and_set_global_from_exe_define :
    (t : Toml) (iterated : List (String × ℕ) → List (String × ℕ))
    → (String → String ⊎ List (CommandSpecRaw t.Value))
    → System
    → Global
    → Result (Unit {0}) × Global
load_and_set_global_from_exe_define t iterated from_toml sys g =
    load_and_set_global (from_exe_define t iterated from_toml sys) g

-- `get` and `get_by_str`
get : (Command → Option CommandSpec) → Command → Option CommandSpec
get by_id id = by_id id

get_by_str : (Command → Option CommandSpec) → String → Option CommandSpec
get_by_str by_id s = elim (Command.from_str s) [ ok id ↦ by_id id | err e ↦ none | panic ↦ none ]

or_else {ℓ} : {A : Type ℓ} → Option A → Option A → Option A
or_else (some a) b = some a
or_else none b = b

-- `display_name`
name_in : String → NameField → Option String
name_in lang name =
    if str_eq lang "jp" || str_eq lang "ja"
    then or_else name.jp name.en
    else or_else name.en name.jp

display_name : CommandSpec → String → Option String
display_name spec lang = elim spec.name [ none ↦ none | some name ↦ name_in lang name ]
