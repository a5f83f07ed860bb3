-- ===== src/Registry/File/ReadWords.antt =====
-- The entry of `read_words` in src/commands.toml, and the specification that it gives.
use Prim.Native.String.{String}
use melsec_mc.Prelude.{ℕ, ◌≡◌, refl, sym, ◌∙◌, ap, true, Option, none, List, [], ◌∷◌, subst}
use melsec_mc.Error.{ok-inj, ok, bind-eq-ok}
use melsec_mc.Text.{split_once, split, starts_with, ends_with, parse_uint, trim_end_matches}
use melsec_mc.Registry.{
  FieldSpec, BlockTemplate, ResponseEntry, any, block_words, SubcommandSpec, CommandSpec,
}
use melsec_mc.Registry.FixedFields.{read_fields}
use melsec_mc.Registry.Formats.{
  parse_field_spec, parse_field_specs, parse_response_format, parse_response_formats, kind_of,
  width_with_order, width_alone, named, entry_of,
}
use melsec_mc.Registry.File.{
  Toml, CommandSpecRaw, command_family, parse_block_templates, sub_spec, spec_built, parse_command,
}

-- The formats of the entry.
abbrev pub read_words_format : List String
read_words_format =
    "command:2be" ∷ "subcommand:2be" ∷ "start_addr:3le" ∷ "device_code:1" ∷ "count:2le" ∷ []

pub record IsReadWords {V : Type 0} (raw : CommandSpecRaw V) : Type 0 where
  pub request : raw.request_format ≡ read_words_format
  pub response : raw.response_format ≡ "data_blocks:blocks_words_le" ∷ []
  pub no_blocks : raw.block_templates ≡ none
  pub family : command_family raw.device_family ≡ any

fields_read : parse_field_specs read_words_format ≡ ok read_fields
unfolding parse_field_specs parse_field_spec kind_of width_with_order width_alone named split_once
    starts_with ends_with parse_uint trim_end_matches
fields_read = refl

entries_read :
    parse_response_formats ("data_blocks:blocks_words_le" ∷ [])
    ≡ ok (block_words "data_blocks" true ∷ [])
unfolding parse_response_formats parse_response_format entry_of split
entries_read = refl

module _ (t : Toml) (iterated : List (String × ℕ) → List (String × ℕ)) where
  -- A specification as the entry gives it.
  abbrev pub IsReadSpec : CommandSpecRaw t.Value → CommandSpec → Type 0
  IsReadSpec raw spec =
      (spec.request_fields ≡ read_fields)
      × (spec.block_templates ≡ [])
      × (spec.device_family ≡ any)
      × (spec.response_entries ≡ block_words "data_blocks" true ∷ [])
      × (spec.command_code ≡ raw.command_code)
      × (sub_spec t iterated raw.subcommand ≡ ok spec.subcommand)

  built-IsReadSpec :
      (raw : CommandSpecRaw t.Value) (fields : List FieldSpec) (templates : List BlockTemplate)
      (entries : List ResponseEntry) (sub : Option SubcommandSpec)
      → IsReadWords raw
      → parse_field_specs raw.request_format ≡ ok fields
      → parse_block_templates raw.block_templates ≡ ok templates
      → parse_response_formats raw.response_format ≡ ok entries
      → sub_spec t iterated raw.subcommand ≡ ok sub
      → IsReadSpec raw (spec_built t iterated raw fields templates entries sub)
  unfolding spec_built parse_block_templates
  built-IsReadSpec raw fields templates entries sub r ef et ee es = (
    ok-inj _ _ (sym ef ∙ ap parse_field_specs r.request ∙ fields_read),
    ok-inj _ _ (sym et ∙ ap parse_block_templates r.no_blocks),
    r.family,
    ok-inj _ _ (sym ee ∙ ap parse_response_formats r.response ∙ entries_read),
    refl,
    es,
  )

  pub parse_command-IsReadSpec :
      (raw : CommandSpecRaw t.Value) (spec : CommandSpec)
      → IsReadWords raw
      → parse_command t iterated raw ≡ ok spec
      → IsReadSpec raw spec
  unfolding parse_command
  parse_command-IsReadSpec raw spec r e =
      let (fields, ef, e1) = bind-eq-ok (parse_field_specs raw.request_format) _ e in
      let (templates, et, e2) = bind-eq-ok (parse_block_templates raw.block_templates) _ e1 in
      let (entries, ee, e3) = bind-eq-ok (parse_response_formats raw.response_format) _ e2 in
      let (sub, es, e4) = bind-eq-ok (sub_spec t iterated raw.subcommand) _ e3 in
      subst (IsReadSpec raw) (ok-inj _ _ e4)
        (built-IsReadSpec raw fields templates entries sub r ef et ee es)
