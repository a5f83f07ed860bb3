-- ===== src/TomlHelpers.antt =====
-- src/toml_helpers.rs: the line and the column in the text of an error of the crate toml.
pub mod Position
use Prim.Native.String.{String}
use melsec_mc.Prelude.{ℕ, Option, none, some, if◌then◌else◌}
use melsec_mc.Text.{is_empty, after, leading_digits, parse_uint, max_u64}

-- The digits at the start, as a `usize`.
unfoldable pub leading_number : String → Option ℕ
leading_number s =
    let digits = leading_digits s in if is_empty digits then none else parse_uint 10 max_u64 digits

unfoldable pub extract_line_col_from_msg : String → Option (ℕ × ℕ)
extract_line_col_from_msg msg = elim (after msg "line ") [
  | none ↦ none
  | some behind ↦ elim (leading_number behind) [
    | none ↦ none
    | some line ↦ elim (after behind "column ") [
      | none ↦ none
      | some behind2 ↦ elim (leading_number behind2) [ none ↦ none | some col ↦ some (line, col) ]
    ]
  ]
]
