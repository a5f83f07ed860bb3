-- ===== src/Registry/Formats.antt =====
-- src/command_registry.rs: the field and response formats of a command's definition.
pub mod Printed
use Prim.Native.String.{String}
use melsec_mc.Prelude.{
  ℕ, Bool, true, false, not, ◌||◌, Option, none, some, List, [], ◌∷◌, str_eq, if◌then◌else◌,
}
use melsec_mc.Error.{
  Result, ok, fail, ◌>>=◌, invalid_field_spec, invalid_byte_width, unsupported_field_type,
  invalid_response_format, unsupported_response_kind,
}
use melsec_mc.Text.{
  starts_with, ends_with, trim_end_matches, split_once, split, parse_uint, max_u64,
}
use melsec_mc.Registry.{
  FieldKind, fixed_bytes, words, bytes, ascii_hex, FieldSpec, ResponseEntry, block_words,
  block_bits_packed, block_nibbles, hex_text,
}

-- The width before the byte order, and a width alone.
unfoldable pub width_with_order : String → Bool → Option ℕ → Result FieldKind
width_with_order typ le none = fail (invalid_byte_width typ)
width_with_order typ le (some n) = ok (fixed_bytes n le)

unfoldable pub width_alone : String → Option ℕ → Result FieldKind
width_alone typ none = fail (unsupported_field_type typ)
width_alone typ (some n) = ok (fixed_bytes n true)

-- The part of `parse_field_spec` behind the colon.
unfoldable pub kind_of : String → Result FieldKind
kind_of typ =
    if str_eq typ "rest" || str_eq typ ".." || str_eq typ "bytes"
    then ok bytes
    else if starts_with typ "words"
    then ok (words (ends_with typ "le"))
    else if ends_with typ "le" || ends_with typ "be"
    then width_with_order typ (ends_with typ "le")
        (parse_uint 10 max_u64 (trim_end_matches (trim_end_matches typ "le") "be"))
    else if str_eq typ "ascii_hex"
    then ok ascii_hex
    else width_alone typ (parse_uint 10 max_u64 typ)

unfoldable pub named : String → FieldKind → FieldSpec
named name kind = record { name = name; kind = kind }

unfoldable pub parse_field_spec : String → Result FieldSpec
parse_field_spec s = elim (split_once b':' s) [
  | none ↦ fail (invalid_field_spec s)
  | some (name, typ) ↦ kind_of typ >>= λ kind. ok (named name kind)
]

-- `.iter().map(parse_field_spec).collect::<Result<Vec<_>, _>>()?`
unfoldable pub parse_field_specs : List String → Result (List FieldSpec)
parse_field_specs [] = ok []
parse_field_specs (s ∷ ss) = do
  field ← parse_field_spec s
  fields ← parse_field_specs ss
  ok (field ∷ fields)

-- The parameter behind the kind, if there is one.
abbrev pub differs_from : String → List String → Bool
differs_from p [] = true
differs_from p (q ∷ qs) = not (str_eq q p)

unfoldable pub entry_of : String → String → List String → Result ResponseEntry
entry_of name kind params =
    if str_eq kind "blocks_words_le"
    then ok (block_words name true)
    else if str_eq kind "blocks_words_be"
    then ok (block_words name false)
    else if str_eq kind "blocks_bits_packed"
    then ok (block_bits_packed name (differs_from "msb" params))
    else if str_eq kind "blocks_nibbles"
    then ok (block_nibbles name (differs_from "low" params))
    else if str_eq kind "ascii_hex"
    then ok (hex_text name)
    else fail (unsupported_response_kind kind)

unfoldable pub parse_response_format : String → List String → Result ResponseEntry
parse_response_format rf (name ∷ kind ∷ params) = entry_of name kind params
parse_response_format rf (name ∷ []) = fail (invalid_response_format rf)
parse_response_format rf [] = fail (invalid_response_format rf)

unfoldable pub parse_response_formats : List String → Result (List ResponseEntry)
parse_response_formats [] = ok []
parse_response_formats (rf ∷ rfs) = do
  entry ← parse_response_format rf (split b':' rf)
  entries ← parse_response_formats rfs
  ok (entry ∷ entries)
