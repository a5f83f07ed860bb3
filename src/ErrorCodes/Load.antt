-- ===== src/ErrorCodes/Load.antt =====
-- src/error_codes.rs: how the codes of a TOML file are read, and `ErrorRegistry::from_str`. An
-- error that a visitor makes goes into the text of toml's error, and is `none`.
pub mod Numbers
use Prim.Native.String.{String}
use melsec_mc.Prelude.{
  ℕ, ℤ, pos, negsuc, Option, none, some, List, ◌⊎◌, inl, inr, leb, if◌then◌else◌,
}
use melsec_mc.Error.{Result, ok, fail, ◌>>=◌, error_codes_toml_parse_error}
use melsec_mc.Text.{trim, strip_prefix, parse_uint, max_u16}
use melsec_mc.ErrorCodes.{ErrorEntry}

-- The visitor of `parse_hex_or_int`.
unfoldable pub visit_u64 : ℕ → Option ℕ
visit_u64 v = if leb v max_u16 then some v else none

unfoldable pub visit_i64 : ℤ → Option ℕ
unfolding visit_u64
visit_i64 (negsuc n) = none
visit_i64 (pos n) = visit_u64 n

unfoldable pub visit_trimmed : String → Option ℕ
visit_trimmed s = elim (strip_prefix s "0x") [
  | some digits ↦ parse_uint 16 max_u16 digits
  | none ↦ parse_uint 10 max_u16 s
]

unfoldable pub visit_str : String → Option ℕ
visit_str text = visit_trimmed (trim text)

-- `toml::from_str` gives the entries or the text of its error.
unfoldable pub from_str : (String → String ⊎ List ErrorEntry) → String → Result (List ErrorEntry)
from_str from_toml s = elim (from_toml s) [
  | inl e ↦ fail (error_codes_toml_parse_error e)
  | inr codes ↦ ok codes
]

pub validate_str : (String → String ⊎ List ErrorEntry) → String → Result (Unit {0})
unfolding from_str
validate_str from_toml s = do from_str from_toml s >>= λ codes. ok tt
