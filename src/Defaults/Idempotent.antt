-- ===== src/Defaults/Idempotent.antt =====
-- What the registries hold once the defaults are set.
use melsec_mc.Prelude.{ℕ, ◌≡◌, refl, sym, ◌∙◌, ap, Option, none, some, List}
use mathlib.Core.Option.{get_or}
use melsec_mc.ErrorCodes as ErrorCodes
use melsec_mc.Registry.File as File
use melsec_mc.Error.{Result, ok}
use melsec_mc.Command.{Command}
use melsec_mc.ErrorCodes.{ErrorEntry, register_or_merge, lookup}
use melsec_mc.ErrorCodes.Merge.{last_with, or_else, register_or_merge_lem}
use melsec_mc.Registry.{CommandSpec}
use melsec_mc.Registry.File.{set_global, load_and_set_global}
use melsec_mc.Defaults.{Globals, is_already_set, merge_codes, after_commands, init_defaults}

module _ (reg : Command → Option CommandSpec) (codes : List ErrorEntry) where
  -- The defaults with registries `g` before.
  abbrev pub initialized : Globals → Result (Unit {0}) × Globals
  initialized g = init_defaults (ok reg) (ok codes) g

  parts :
      (commands : File.Global) (entries : ErrorCodes.Global)
      → let result = initialized (record { commands = commands; codes = entries }) in
        (result.0 ≡ (register_or_merge codes entries).0)
        × (result.1.commands ≡ some (get_or commands reg))
        × (result.1.codes ≡ (register_or_merge codes entries).1)
  unfolding init_defaults load_and_set_global set_global after_commands is_already_set merge_codes
  parts none entries = (refl, refl, refl)
  parts (some old) entries = (refl, refl, refl)

  once :
      (g : Globals) (code : ℕ)
      → ((initialized g).0 ≡ ok tt)
        × ((initialized g).1.commands ≡ some (get_or g.commands reg))
        × (lookup (initialized g).1.codes code
            ≡ or_else (last_with codes code) (lookup g.codes code))
  once g code =
      let (result, commands, merged) = parts g.commands g.codes in
      let (done, found) = register_or_merge_lem codes g.codes code in
      (result ∙ done, commands, ap (λ (m : ErrorCodes.Global). lookup m code) merged ∙ found)

  or_else_twice :
      (last before : Option ErrorEntry) → or_else last (or_else last before) ≡ or_else last before
  or_else_twice none before = refl
  or_else_twice (some e) before = refl

  -- Where both embedded files can be read, setting the defaults always succeeds: a registry of
  -- commands that was set before stays, else it is the embedded one. An end code has the last of
  -- the embedded entries for it, which replaces an entry that was registered before, or else what
  -- it had before. Doing it again succeeds and changes nothing.
  pub init_defaults_lem :
      (g : Globals) (code : ℕ)
      → ((initialized g).0 ≡ ok tt)
        × ((initialized g).1.commands ≡ some (get_or g.commands reg))
        × (lookup (initialized g).1.codes code
            ≡ or_else (last_with codes code) (lookup g.codes code))
        × ((initialized (initialized g).1).0 ≡ ok tt)
        × ((initialized (initialized g).1).1.commands ≡ (initialized g).1.commands)
        × (lookup (initialized (initialized g).1).1.codes code
            ≡ lookup (initialized g).1.codes code)
  init_defaults_lem g code =
      let (done, commands, found) = once g code in
      let (again, commands', found') = once (initialized g).1 code in
      (
        done,
        commands,
        found,
        again,
        commands' ∙ ap (λ (c : File.Global). some (get_or c reg)) commands ∙ sym commands,
        found'
            ∙ ap (or_else (last_with codes code)) found
            ∙ or_else_twice (last_with codes code) (lookup g.codes code)
            ∙ sym found,
      )
