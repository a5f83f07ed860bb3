-- ===== src/Registry/FileTests.antt =====
-- Files at which the theorems on the definitions' formats apply.
use Prim.Native.String.{String, [], ◌∷◌, ◌++◌}
use melsec_mc.Prelude.{
  ℕ, ℤ, pos, ◌≡◌, ◌≢◌, refl, arith, true, false, Option, none, some, List, [], ◌∷◌, ◌⊎◌, inr,
}
use melsec_mc.Error.{ok}
use melsec_mc.Text.{
  split_once, split, starts_with, ends_with, parse_uint, trim_end_matches, to_digit,
}
use melsec_mc.Command.{Command}
use melsec_mc.Registry.{
  any, fixed_bytes, block_words, block_bits_packed, block_nibbles, single, CommandSpec,
}
use melsec_mc.Registry.FixedFields.{read_fields}
use melsec_mc.Registry.Formats.{
  kind_of, width_with_order, width_alone, named, entry_of, parse_field_spec, parse_field_specs,
  parse_response_format, parse_response_formats,
}
use melsec_mc.Registry.Formats.Printed.{
  entry_text, parse_field_spec-fixed, parse_response_formats-text,
}
use melsec_mc.Registry.File.{
  Toml, CommandSpecRaw, insert_spec, family_named, command_family, parse_templates,
  parse_block_templates, u16_of, sub_value, sub_spec, limits_of, spec_built, parse_command,
  parse_commands, parse_command_file,
}
use melsec_mc.Registry.File.Commands.{last_raw, IsFound, parse_command_file-IsFound}
use melsec_mc.Registry.File.ReadWords.{read_words_format, IsReadWords}
use melsec_mc.Registry.Validate.{
  validate_str, check_commands, check_command, check_templates, check_responses, check_response,
}
use melsec_mc.Registry.Validate.Accepted.{parse_command_file-validate_str, validate_str-refused}

-- Values of toml that are integers.
abbrev pub integers : Toml
integers = record { Value = ℤ; as_integer = λ i. some i; as_table = λ i. none }

abbrev pub same_order : List (String × ℕ) → List (String × ℕ)
same_order m = m

-- The entry of `read_words` in src/commands.toml, with one subcommand.
abbrev pub read_words_raw : CommandSpecRaw ℤ
read_words_raw = record {
  id = Command.read_words;
  name = none;
  command_code = 0x0401;
  subcommand = some (pos 0);
  device_family = some "Any";
  limits = none;
  request_format = read_words_format;
  response_format = "data_blocks:blocks_words_le" ∷ [];
  block_templates = none;
}

pub read_words_raw-IsReadWords : IsReadWords read_words_raw
unfolding command_family family_named
read_words_raw-IsReadWords = record {
  request = refl;
  response = refl;
  no_blocks = refl;
  family = refl;
}

abbrev pub read_words_spec : CommandSpec
read_words_spec = record {
  id = Command.read_words;
  name = none;
  command_code = 0x0401;
  subcommand = some (single 0);
  device_family = any;
  request_fields = read_fields;
  response_format = "data_blocks:blocks_words_le" ∷ [];
  response_entries = block_words "data_blocks" true ∷ [];
  block_templates = [];
  limits = none;
}

abbrev pub read_words_only : Command → Option CommandSpec
read_words_only = insert_spec (λ id. none) Command.read_words read_words_spec

pub read_words_accepted :
    parse_command_file integers same_order (read_words_raw ∷ []) ≡ ok read_words_only
unfolding parse_command_file parse_commands parse_command parse_field_specs parse_field_spec kind_of
    width_with_order width_alone named parse_block_templates parse_templates parse_response_formats
    parse_response_format entry_of sub_spec sub_value u16_of spec_built command_family family_named
    limits_of split_once split starts_with ends_with parse_uint trim_end_matches
read_words_accepted = refl

parse_command_file-IsFound_example :
    IsFound integers same_order
      (last_raw integers same_order (read_words_raw ∷ []) Command.read_words none)
      (read_words_only Command.read_words)
parse_command_file-IsFound_example =
    parse_command_file-IsFound integers same_order (read_words_raw ∷ []) read_words_only
      Command.read_words read_words_accepted

parse_field_spec-fixed_example :
    parse_field_spec ("start_addr" ++ (":" ++ ("3" ++ "le")))
    ≡ ok (record { name = "start_addr"; kind = fixed_bytes 3 true })
unfolding to_digit
parse_field_spec-fixed_example =
    parse_field_spec-fixed "3" "" 3 refl (omega arith) "start_addr" true
      (refl, (refl, (refl, (refl, (refl, (refl, (refl, (refl, (refl, (refl, tt))))))))))

parse_response_formats-text_example :
    parse_response_formats (
      entry_text (false, block_words "word_blocks" true)
      ∷ entry_text (false, block_bits_packed "bit_blocks" true)
      ∷ entry_text (true, block_nibbles "data_blocks" true)
      ∷ [])
    ≡ ok (
        block_words "word_blocks" true
        ∷ block_bits_packed "bit_blocks" true
        ∷ block_nibbles "data_blocks" true
        ∷ [])
parse_response_formats-text_example =
    parse_response_formats-text
      ((false, block_words "word_blocks" true)
        ∷ (false, block_bits_packed "bit_blocks" true)
        ∷ (true, block_nibbles "data_blocks" true)
        ∷ [])
      (
        (refl, (refl, (refl, (refl, (refl, (refl, (refl, (refl, (refl, (refl, (refl, tt))))))))))),
        (
          (refl, (refl, (refl, (refl, (refl, (refl, (refl, (refl, (refl, (refl, tt)))))))))),
          (
            (
              refl,
              (refl, (refl, (refl, (refl, (refl, (refl, (refl, (refl, (refl, (refl, tt)))))))))),
            ),
            tt,
          ),
        ),
      )

-- A file with a command that has its response under the name of a request field.
abbrev count_raw : CommandSpecRaw ℤ
count_raw = record read_words_raw { response_format = "count:blocks_words_le" ∷ [] }

abbrev given : CommandSpecRaw ℤ → String → String ⊎ List (CommandSpecRaw ℤ)
given raw s = inr (raw ∷ [])

count_valid : validate_str (given count_raw) "" ≡ ok tt
unfolding validate_str check_commands check_command check_templates check_responses check_response
    parse_field_specs parse_field_spec kind_of width_with_order width_alone named split_once split
    starts_with ends_with parse_uint trim_end_matches
count_valid = refl

parse_command_file-validate_str_example :
    (by_id : Command → Option CommandSpec) × (parse_command_file integers same_order
        (count_raw ∷ [])
      ≡ ok by_id)
unfolding parse_response_formats parse_response_format entry_of split sub_spec sub_value u16_of
parse_command_file-validate_str_example =
    parse_command_file-validate_str integers same_order (given count_raw) "" (count_raw ∷ []) refl
      count_valid (((block_words "count" true ∷ [], refl), (some (single 0), refl)), tt)

validate_str-refused_example : validate_str (given read_words_raw) "" ≢ ok tt
unfolding parse_field_specs parse_field_spec kind_of width_with_order width_alone named split_once
    split starts_with ends_with parse_uint trim_end_matches
validate_str-refused_example =
    validate_str-refused (given read_words_raw) "" [] [] read_words_raw read_fields [] []
      "data_blocks:blocks_words_le" "data_blocks" "blocks_words_le" [] refl refl refl refl refl
