-- ===== src/Defaults.antt =====
-- src/lib.rs: `init_defaults`, and what `McClient::new` of src/mc_client.rs does to the global
-- registries. The embedded files' entries are arguments.
pub mod Idempotent
use melsec_mc.Prelude.{Bool, true, false, Option, List, if◌then◌else◌}
use melsec_mc.Error.{MelsecError, protocol, Result, ok, err, panic, registry_already_set}
use melsec_mc.Command.{Command}
use melsec_mc.ErrorCodes.{ErrorEntry, register_or_merge}
use melsec_mc.ErrorCodes as ErrorCodes
use melsec_mc.Registry.{CommandSpec}
use melsec_mc.Registry.File.{load_and_set_global}
use melsec_mc.Registry.File as File

-- The process-wide registries of commands and of end codes.
pub record Globals : Type 0 where
  pub commands : File.Global
  pub codes : ErrorCodes.Global

-- `msg.contains("global CommandRegistry already set")`: these are the words of `set_global`.
unfoldable pub is_already_set : MelsecError → Bool
is_already_set (protocol registry_already_set) = true
is_already_set _ = false

unfoldable pub merge_codes : Result (List ErrorEntry) → Globals → Result (Unit {0}) × Globals
merge_codes (ok codes) g =
    let merged = register_or_merge codes g.codes in (merged.0, record g { codes = merged.1 })
merge_codes (err e) g = (err e, g)
merge_codes panic g = (panic, g)

unfoldable pub after_commands :
    Result (Unit {0}) → Result (List ErrorEntry) → Globals → Result (Unit {0}) × Globals
after_commands (ok u) codes g = merge_codes codes g
after_commands (err e) codes g = if is_already_set e then merge_codes codes g else (err e, g)
after_commands panic codes g = (panic, g)

-- What the embedded files of commands and of end codes give, and the registries before.
unfoldable pub init_defaults :
    Result (Command → Option CommandSpec)
    → Result (List ErrorEntry)
    → Globals
    → Result (Unit {0}) × Globals
init_defaults commands codes g =
    let loaded = load_and_set_global commands g.commands in
    after_commands loaded.0 codes (record g { commands = loaded.1 })

-- `McClient::new` ignores the errors.
unfoldable pub set_defaults :
    Result (Command → Option CommandSpec) → Result (List ErrorEntry) → Globals → Globals
set_defaults commands codes g =
    let loaded = load_and_set_global commands g.commands in
    (merge_codes codes (record g { commands = loaded.1 })).1
