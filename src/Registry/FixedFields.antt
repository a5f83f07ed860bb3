-- ===== src/Registry/FixedFields.antt =====
-- The request fields that the commands for words share: command, subcommand, address, device code
-- and count (src/command_registry.rs).
use melsec_mc.Prelude.{
  ℕ, ◌^◌, ◌<◌, ◌≡◌, refl, ◌∙◌, ap, Bool, true, false, Option, some, String, List, [], ◌∷◌, ◌++◌,
  append_assoc, arith, le→leb,
}
use melsec_mc.Error.{ok}
use melsec_mc.Bytes.{Bytes}
use melsec_mc.PlcSeries.{PlcSeries, q, r}
use melsec_mc.Command as Command
use melsec_mc.Device.{Device}
use melsec_mc.Json.{Json, IsJson}
use melsec_mc.Registry.{
  FieldSpec, fixed_bytes, any, CommandSpec, effective_sub, effective_layout, low_bytes,
  write_n_bytes,
}
use melsec_mc.Registry.Fields.{
  get_num_field, number_of, request_layout, write_fixed_bytes_field, write_field, write_fields,
  validate_code_for_family, family_of_device, family_error, validate_device_code,
  validate_templates,
}
use melsec_mc.Registry.Blocks.{
  check_limit, check_limits, sum_templates, validate_block_limits, emit_blocks, append_blocks,
}

-- The request format of `read_words` in src/commands.toml.
abbrev pub read_fields : List FieldSpec
read_fields =
    record { name = "command"; kind = fixed_bytes 2 false }
    ∷ record { name = "subcommand"; kind = fixed_bytes 2 false }
    ∷ record { name = "start_addr"; kind = fixed_bytes 3 true }
    ∷ record { name = "device_code"; kind = fixed_bytes 1 true }
    ∷ record { name = "count"; kind = fixed_bytes 2 true }
    ∷ []

-- The widths of the address and of the device code in a series' layout.
abbrev pub addr_width : PlcSeries → ℕ
addr_width q = 3
addr_width r = 4

abbrev pub code_width : PlcSeries → ℕ
code_width q = 1
code_width r = 2

no_family :
    (devices : List Device) (id : String) (code : ℕ)
    → code < 256
    → validate_code_for_family devices id code any ≡ ok tt
unfolding validate_code_for_family family_of_device family_error
no_family devices id code h = rw (le→leb code 255 (omega arith)) (ground arith)

no_points :
    (j : Json) (devices : List Device) (spec : CommandSpec) (params : j.Value)
    → spec.block_templates ≡ []
    → validate_block_limits j devices spec params ≡ ok tt
unfolding validate_block_limits check_limits check_limit sum_templates
no_points j devices spec params e = rw e (ground arith)

module _ (j : Json) (laws : IsJson j) (addr code count : ℕ) (params : j.Value)
    (param_addr : j.get params "start_addr" ≡ some (j.number addr))
    (param_code : j.get params "device_code" ≡ some (j.number code))
    (param_count : j.get params "count" ≡ some (j.number count)) where
  number_of-number :
      (name : String) (n : ℕ) → n < 2 ^ 64 → number_of j name (some (j.number n)) ≡ ok n
  unfolding number_of
  number_of-number name n h = rw (laws.is_number-number n, laws.as_u64-number n h)

  module _ (spec : CommandSpec) (series : Option PlcSeries) where
    num_addr : addr < 2 ^ 64 → get_num_field j spec "start_addr" params series ≡ ok addr
    unfolding get_num_field
    num_addr h = ap (number_of j "start_addr") param_addr ∙ number_of-number "start_addr" addr h

    num_code : code < 2 ^ 64 → get_num_field j spec "device_code" params series ≡ ok code
    unfolding get_num_field
    num_code h = ap (number_of j "device_code") param_code ∙ number_of-number "device_code" code h

    num_count : count < 2 ^ 64 → get_num_field j spec "count" params series ≡ ok count
    unfolding get_num_field
    num_count h = ap (number_of j "count") param_count ∙ number_of-number "count" count h

    write_number :
        (name : String) (w : ℕ) (le : Bool) (n : ℕ) (out : Bytes)
        → get_num_field j spec name params series ≡ ok n
        → write_field j spec (record { name = name; kind = fixed_bytes w le }) params series out
          ≡ ok (
              write_n_bytes out
                (request_layout name series w le).0
                n
                (request_layout name series w le).1)
    unfolding write_field write_fixed_bytes_field
    write_number name w le n out e = rw e

    -- The five fields, one behind the other.
    abbrev pub written : Bytes → ℕ → ℕ → Bytes
    written out a c =
        write_n_bytes
          (write_n_bytes
            (write_n_bytes
              (write_n_bytes (write_n_bytes out 2 spec.command_code true) 2
                (effective_sub spec.subcommand series) true)
              a addr true)
            c code true)
          2 count true

    fields_written :
        (a c : ℕ)
        → addr < 2 ^ 64
        → code < 2 ^ 64
        → count < 2 ^ 64
        → request_layout "start_addr" series 3 true ≡ (a, true)
        → request_layout "device_code" series 1 true ≡ (c, true)
        → write_fields j spec read_fields params series [] ≡ ok (written [] a c)
    unfolding write_fields
    fields_written a c ha hc hn ea ec =
        rw
          (
            write_number "command" 2 false spec.command_code [] (unfold get_num_field in refl),
            write_number "subcommand" 2 false (effective_sub spec.subcommand series) _
                (unfold get_num_field in refl),
            write_number "start_addr" 3 true addr _ (num_addr ha),
            write_number "device_code" 1 true code _ (num_code hc),
            write_number "count" 2 true count _ (num_count hn),
            ea,
            ec,
          )
          (unfold request_layout effective_layout in refl)

  pub written-low_bytes :
      (spec : CommandSpec) (series : Option PlcSeries) (a c : ℕ)
      → written spec series [] a c
        ≡ low_bytes 2 spec.command_code
          ++ (low_bytes 2 (effective_sub spec.subcommand series)
              ++ (low_bytes a addr ++ (low_bytes c code ++ low_bytes 2 count)))
  unfolding write_n_bytes
  written-low_bytes spec series a c = simp append_assoc

  pub fields_of_series :
      (spec : CommandSpec) (series : PlcSeries)
      → addr < 2 ^ 64
      → code < 256
      → count < 2 ^ 64
      → write_fields j spec read_fields params (some series) []
        ≡ ok (written spec (some series) [] (addr_width series) (code_width series))
  unfolding request_layout effective_layout
  fields_of_series spec q ha hc hn = fields_written spec (some q) 3 1 ha (omega arith) hn refl refl
  fields_of_series spec r ha hc hn = fields_written spec (some r) 4 2 ha (omega arith) hn refl refl

  module _ (devices : List Device) (spec : CommandSpec) where
    pub device_code_valid :
        spec.device_family ≡ any → code < 256 → validate_device_code j devices spec params ≡ ok tt
    unfolding validate_device_code
    device_code_valid family h = rw (
      param_code,
      validate_device_code,
      laws.as_u64-number code (omega arith),
      family,
      no_family devices (Command.as_str spec.id) code h,
    )

    pub templates_valid :
        spec.block_templates ≡ []
        → validate_templates j devices spec params spec.block_templates ≡ ok tt
    unfolding validate_templates
    templates_valid blocks = rw blocks

    pub nothing_appended :
        (series : Option PlcSeries) (out : Bytes)
        → spec.block_templates ≡ []
        → append_blocks j devices spec params series out ≡ ok out
    unfolding append_blocks emit_blocks
    nothing_appended series out blocks = rw (no_points j devices spec params blocks, blocks)
