-- ===== src/Registry/Validate/Accepted.antt =====
-- What `validate_str` promises of `from_str`, and the files that it refuses.
use Prim.Native.String.{String}
use melsec_mc.Prelude.{
  or_nil, ℕ, ◌≡◌, ◌≢◌, refl, ◌∙◌, Bool, true, false, not, Option, none, some, List, [], ◌∷◌, ◌++◌,
  All, ◌⊎◌, inr,
}
use melsec_mc.Error.{require, Message, Result, ok, err, panic, ◌>>◌, bind-eq-ok}
use melsec_mc.Text.{split}
use melsec_mc.Command.{Command}
use melsec_mc.Command as Command
use melsec_mc.Registry.{FieldSpec, BlockTemplate, ResponseEntry, SubcommandSpec, CommandSpec}
use melsec_mc.Registry.Formats.{parse_field_specs, parse_response_formats}
use melsec_mc.Registry.File.{
  Toml, BlockTemplateRaw, CommandSpecRaw, insert_spec, template_of, parse_templates,
  parse_block_templates, sub_spec, spec_built, parse_command, parse_commands, parse_command_file,
}
use melsec_mc.Registry.Validate.{
  has, names_of, is_family, check_template, check_templates, plurals, check_response,
  check_responses, check_command, check_commands, validate_str,
}

require-ok : (b : Bool) (message : Message) → require b message ≡ ok tt → b ≡ true
require-ok true message e = refl
require-ok false message e = cc

check_templates-parsed :
    (id : String) (names : List String) (bts : List BlockTemplateRaw)
    → check_templates id names bts ≡ ok tt
    → (templates : List BlockTemplate) × (parse_templates bts ≡ ok templates)
unfolding check_templates parse_templates check_template
check_templates-parsed id names [] e = ([], refl)
check_templates-parsed id names (bt ∷ bts) e =
    let (u, first, rest) = bind-eq-ok (check_template id names bt) _ e in
    let (v, repeats, e1) = bind-eq-ok (require (has names bt.repeat_field) _) _ first in
    let (w, family, e2) = bind-eq-ok (require (is_family bt.device_family) _) _ e1 in
    let (fields, parsed, e3) = bind-eq-ok (parse_field_specs bt.fields) _ e2 in
    let (templates, all_parsed) = check_templates-parsed id names bts rest in
    (template_of bt fields ∷ templates, rw parsed (rw all_parsed))

parse_block_templates-or_nil :
    (bts : Option (List BlockTemplateRaw))
    → parse_block_templates bts ≡ parse_templates (or_nil bts)
unfolding parse_block_templates parse_templates
parse_block_templates-or_nil none = refl
parse_block_templates-or_nil (some raws) = refl

module _ (t : Toml) (iterated : List (String × ℕ) → List (String × ℕ)) where
  -- What the validation does not look at.
  abbrev pub IsReadable : CommandSpecRaw t.Value → Type 0
  IsReadable cmd =
      ((entries : List ResponseEntry) × (parse_response_formats cmd.response_format ≡ ok entries))
      × ((sub : Option SubcommandSpec) × (sub_spec t iterated cmd.subcommand ≡ ok sub))

  check_command-parsed :
      (before : List String) (cmd : CommandSpecRaw t.Value)
      → check_command before cmd ≡ ok tt
      → IsReadable cmd
      → (spec : CommandSpec) × (parse_command t iterated cmd ≡ ok spec)
  unfolding check_command parse_command
  check_command-parsed before cmd e ((entries, read), (sub, resolved)) =
      let (u, fresh, e1) = bind-eq-ok (require (not (has before (Command.as_str cmd.id))) _) _ e in
      let (fields, parsed, e2) = bind-eq-ok (parse_field_specs cmd.request_format) _ e1 in
      let (v, checked, e3) =
        bind-eq-ok
          (check_templates (Command.as_str cmd.id) (names_of fields) (or_nil cmd.block_templates)) _
          e2 in
      let (templates, all_parsed) =
        check_templates-parsed (Command.as_str cmd.id) (names_of fields)
          (or_nil cmd.block_templates) checked in
      let blocks = parse_block_templates-or_nil cmd.block_templates ∙ all_parsed in
      (
        spec_built t iterated cmd fields templates entries sub,
        rw parsed (rw blocks (rw read (rw resolved))),
      )

  check_commands-parsed :
      (before : List String) (cmds : List (CommandSpecRaw t.Value))
      (m : Command → Option CommandSpec)
      → check_commands before cmds ≡ ok tt
      → All IsReadable cmds
      → (by_id : Command → Option CommandSpec) × (parse_commands t iterated m cmds ≡ ok by_id)
  unfolding check_commands parse_commands
  check_commands-parsed before [] m e h = (m, refl)
  check_commands-parsed before (cmd ∷ cmds) m e (h, hs) =
      let (u, first, rest) = bind-eq-ok (check_command before cmd) _ e in
      let (spec, parsed) = check_command-parsed before cmd first h in
      let (by_id, all_parsed) =
        check_commands-parsed (Command.as_str cmd.id ∷ before) cmds (insert_spec m cmd.id spec) rest
          hs in
      (by_id, rw parsed all_parsed)

  -- A file that is valid is accepted by `from_str` too, if its response formats and its
  -- subcommands, which the validation does not read, can be read.
  pub parse_command_file-validate_str :
      (from_toml : String → String ⊎ List (CommandSpecRaw t.Value)) (s : String)
      (cmds : List (CommandSpecRaw t.Value))
      → from_toml s ≡ inr cmds
      → validate_str from_toml s ≡ ok tt
      → All IsReadable cmds
      → (by_id : Command → Option CommandSpec) × (parse_command_file t iterated cmds ≡ ok by_id)
  unfolding parse_command_file validate_str
  parse_command_file-validate_str from_toml s cmds given valid readable =
      let e : check_commands [] cmds ≡ ok tt = rw (given, validate_str) at valid in
      check_commands-parsed [] cmds (λ id. none) e readable

then-ok :
    (first next : Result (Unit {0})) → (first >> next) ≡ ok tt → (first ≡ ok tt) × (next ≡ ok tt)
then-ok (ok u) next e = (refl, e)
then-ok (err x) next e = cc
then-ok panic next e = cc

check_responses-refused :
    (id : String) (names : List String) (before after : List String) (rf name kind : String)
    (params : List String)
    → split b':' rf ≡ name ∷ (kind ∷ params)
    → has names name ≡ false
    → check_responses id names (before ++ (rf ∷ after)) ≢ ok tt
unfolding check_responses check_response
check_responses-refused id names [] after rf name kind params parts absent e =
    let checked = (then-ok (check_response id names rf (split b':' rf)) _ e).0 in
    let e' : require (has names name) _ ≡ ok tt = rw (parts, check_response) at checked in
    let found = require-ok (has names name) _ e' in let clash : true ≡ false = cc in cc
check_responses-refused id names (b ∷ bs) after rf name kind params parts absent e =
    check_responses-refused id names bs after rf name kind params parts absent
      (then-ok (check_response id names b (split b':' b)) _ e).1

check_commands-refused :
    {V : Type 0} (seen : List String) (before after : List (CommandSpecRaw V))
    (cmd : CommandSpecRaw V)
    → ((ids : List String) → check_command ids cmd ≢ ok tt)
    → check_commands seen (before ++ (cmd ∷ after)) ≢ ok tt
unfolding check_commands
check_commands-refused seen [] after cmd refused e =
    refused seen (then-ok (check_command seen cmd) _ e).0
check_commands-refused seen (b ∷ bs) after cmd refused e =
    check_commands-refused (Command.as_str b.id ∷ seen) bs after cmd refused
      (then-ok (check_command seen b) _ e).1

check_command-refused :
    {V : Type 0} (ids : List String) (cmd : CommandSpecRaw V) (fields : List FieldSpec)
    (rfs rfs' : List String) (rf name kind : String) (params : List String)
    → parse_field_specs cmd.request_format ≡ ok fields
    → cmd.response_format ≡ rfs ++ (rf ∷ rfs')
    → split b':' rf ≡ name ∷ (kind ∷ params)
    → has (names_of fields ++ plurals (or_nil cmd.block_templates)) name ≡ false
    → check_command ids cmd ≢ ok tt
unfolding check_command
check_command-refused ids cmd fields rfs rfs' rf name kind params parsed format parts absent e =
    let (u, fresh, e1) = bind-eq-ok (require (not (has ids (Command.as_str cmd.id))) _) _ e in
    let e2 =
      then-ok
        (check_templates (Command.as_str cmd.id) (names_of fields) (or_nil cmd.block_templates)) _
        (rw parsed at e1) in
    check_responses-refused (Command.as_str cmd.id)
      (names_of fields ++ plurals (or_nil cmd.block_templates)) rfs rfs' rf name kind params parts
      absent (rw format at e2.1)

-- A file is refused by `validate_str` if one of its commands has request fields that can be read,
-- and a response under a name that is neither one of theirs nor a template's with an "s". So it
-- is for the definitions in src/commands.toml, where "data_blocks" is such a name.
pub validate_str-refused :
    {V : Type 0} (from_toml : String → String ⊎ List (CommandSpecRaw V)) (s : String)
    (before after : List (CommandSpecRaw V)) (cmd : CommandSpecRaw V) (fields : List FieldSpec)
    (rfs rfs' : List String) (rf name kind : String) (params : List String)
    → from_toml s ≡ inr (before ++ (cmd ∷ after))
    → parse_field_specs cmd.request_format ≡ ok fields
    → cmd.response_format ≡ rfs ++ (rf ∷ rfs')
    → split b':' rf ≡ name ∷ (kind ∷ params)
    → has (names_of fields ++ plurals (or_nil cmd.block_templates)) name ≡ false
    → validate_str from_toml s ≢ ok tt
unfolding validate_str
validate_str-refused from_toml s before after cmd fields rfs rfs' rf name kind params given parsed
      format parts absent valid =
    let e : check_commands [] (before ++ (cmd ∷ after)) ≡ ok tt =
      rw (given, validate_str) at valid in
    check_commands-refused [] before after cmd
      (λ ids.
        check_command-refused ids cmd fields rfs rfs' rf name kind params parsed format parts
          absent)
      e
