-- ===== src/Files.antt =====
-- What the standard library gives of the executable's path and of files, as src/device.rs,
-- src/command_registry.rs, src/device_registry.rs and src/error_codes.rs use it.
use Prim.Native.String.{String}
use melsec_mc.Prelude.{Bool, true, false, Option, none, some, List, [], ◌∷◌, ◌⊎◌, inl}

-- The components of a path, the last one first.
abbrev pub FilePath : Type 0
FilePath = List String

-- The path of the executable or the text of an error, and what there is at a path: the text of a
-- file, or of the error of reading it. Reading where there is nothing has an error of its own.
pub record System : Type 0 where
  pub current_exe : String ⊎ FilePath
  pub file : FilePath → Option (String ⊎ String)
  pub not_found : String

-- `Path::parent`
unfoldable pub parent : FilePath → Option FilePath
parent [] = none
parent (name ∷ dir) = some dir

-- `dir.join("define").join(name)`
unfoldable pub define_path : FilePath → String → FilePath
define_path dir name = name ∷ "define" ∷ dir

-- `Path::exists` and `fs::read_to_string`
unfoldable pub exists : System → FilePath → Bool
exists sys p = elim (sys.file p) [ none ↦ false | some s ↦ true ]

unfoldable pub read_to_string : System → FilePath → String ⊎ String
read_to_string sys p = elim (sys.file p) [ none ↦ inl sys.not_found | some s ↦ s ]
