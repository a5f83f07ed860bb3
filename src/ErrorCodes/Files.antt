-- ===== src/ErrorCodes/Files.antt =====
-- src/error_codes.rs: files of end codes that are read from a path.
use Prim.Native.String.{String}
use melsec_mc.Prelude.{Option, none, some, List, ◌⊎◌, inl, inr, if◌then◌else◌}
use melsec_mc.Error.{
  Result, ok, err, panic, fail, ◌>>=◌, read_error_codes_toml, current_exe_not_found,
  define_error_codes_not_found,
}
use melsec_mc.Files.{System, FilePath, parent, define_path, exists, read_to_string}
use melsec_mc.ErrorCodes.{ErrorEntry, Global, register_codes}
use melsec_mc.ErrorCodes.Load.{from_str, validate_str}

module _ (from_toml : String → String ⊎ List ErrorEntry) (sys : System) where
  -- `fs::read_to_string`, with the text of its error.
  unfoldable read_text : FilePath → Result String
  read_text p = elim (read_to_string sys p) [
    | inl e ↦ fail (read_error_codes_toml e)
    | inr s ↦ ok s
  ]

  unfoldable from_path : FilePath → Result (List ErrorEntry)
  from_path p = do s ← read_text p; from_str from_toml s

  -- The file in the directory of the executable, where there is one.
  unfoldable found_in : Option FilePath → Result FilePath
  found_in none = fail define_error_codes_not_found
  found_in (some dir) =
      if exists sys (define_path dir "error_codes.toml")
      then ok (define_path dir "error_codes.toml")
      else fail define_error_codes_not_found

  unfoldable find_define : Result FilePath
  find_define = elim sys.current_exe [
    | inl e ↦ fail current_exe_not_found
    | inr exe ↦ found_in (parent exe)
  ]

  unfoldable from_exe_define : Result (List ErrorEntry)
  from_exe_define = do p ← find_define; from_path p

  unfoldable registered : Result (List ErrorEntry) → Global → Result (Unit {0}) × Global
  registered (ok codes) g = register_codes codes g
  registered (err e) g = (err e, g)
  registered panic g = (panic, g)

  register_codes_from_path : FilePath → Global → Result (Unit {0}) × Global
  register_codes_from_path p g = registered (from_path p) g

  register_codes_from_exe_define : Global → Result (Unit {0}) × Global
  register_codes_from_exe_define g = registered from_exe_define g

  validate_exe_define : Result (Unit {0})
  validate_exe_define = do p ← find_define; s ← read_text p; validate_str from_toml s
