-- ===== src/Registry/File/Commands.antt =====
-- Which specification the registry has for a command.
use Prim.Native.String.{String}
use melsec_mc.Prelude.{
  ℕ, ◌≡◌, refl, ap, Option, none, some, List, [], ◌∷◌, str_eq, if◌then◌else◌, Bool-cases, inl, inr,
}
use melsec_mc.Error.{ok, bind-eq-ok}
use melsec_mc.Command.{Command}
use melsec_mc.Command as Command
use melsec_mc.Registry.{CommandSpec}
use melsec_mc.Registry.File.{
  Toml, CommandSpecRaw, insert_spec, parse_command, parse_commands, parse_command_file,
}

module _ (t : Toml) (iterated : List (String × ℕ) → List (String × ℕ)) where
  -- The last entry for a command.
  abbrev pub last_raw :
      List (CommandSpecRaw t.Value)
      → Command
      → Option (CommandSpecRaw t.Value)
      → Option (CommandSpecRaw t.Value)
  last_raw [] id last = last
  last_raw (raw ∷ raws) id last =
      last_raw raws id
        (if str_eq (Command.as_str raw.id) (Command.as_str id) then some raw else last)

  -- Nothing where there is no entry, and what the entry parses to where there is one.
  abbrev pub IsFound : Option (CommandSpecRaw t.Value) → Option CommandSpec → Type 0
  IsFound none found = found ≡ none
  IsFound (some raw) found =
      (spec : CommandSpec) × (parse_command t iterated raw ≡ ok spec) × (found ≡ some spec)

  insert_spec-IsFound :
      (m : Command → Option CommandSpec) (raw : CommandSpecRaw t.Value) (spec : CommandSpec)
      (id : Command) (last : Option (CommandSpecRaw t.Value))
      → parse_command t iterated raw ≡ ok spec
      → IsFound last (m id)
      → IsFound
          (if str_eq (Command.as_str raw.id) (Command.as_str id) then some raw else last)
          (insert_spec m raw.id spec id)
  unfolding insert_spec
  insert_spec-IsFound m raw spec id last parsed before =
      elim (Bool-cases (str_eq (Command.as_str raw.id) (Command.as_str id))) [
        | inl same ↦ rw same (spec, parsed, refl)
        | inr differs ↦ rw differs before
      ]

  parse_commands-IsFound :
      (raws : List (CommandSpecRaw t.Value)) (m by_id : Command → Option CommandSpec) (id : Command)
      (last : Option (CommandSpecRaw t.Value))
      → IsFound last (m id)
      → parse_commands t iterated m raws ≡ ok by_id
      → IsFound (last_raw raws id last) (by_id id)
  unfolding parse_commands
  parse_commands-IsFound [] m by_id id last found e =
      let same : m ≡ by_id = cc in rw (← ap (λ (f : Command → Option CommandSpec). f id) same) found
  parse_commands-IsFound (raw ∷ raws) m by_id id last found e =
      let (spec, parsed, rest) = bind-eq-ok (parse_command t iterated raw) _ e in
      parse_commands-IsFound raws (insert_spec m raw.id spec) by_id id _
        (insert_spec-IsFound m raw spec id last parsed found) rest

  -- If a file of commands is accepted, then the registry has for each command what the last of the
  -- file's entries for it parses to, and nothing for a command without an entry.
  pub parse_command_file-IsFound :
      (raws : List (CommandSpecRaw t.Value)) (by_id : Command → Option CommandSpec) (id : Command)
      → parse_command_file t iterated raws ≡ ok by_id
      → IsFound (last_raw raws id none) (by_id id)
  unfolding parse_command_file
  parse_command_file-IsFound raws by_id id e =
      parse_commands-IsFound raws (λ i. none) by_id id none refl e
