-- ===== src/Registry/ReadRequest.antt =====
-- The request data of a read of words, byte by byte.
use melsec_mc.Prelude.{ℕ, ◌^◌, ◌<◌, ◌≡◌, refl, ◌∙◌, ap, some, List, [], ◌++◌}
use melsec_mc.Error.{ok}
use melsec_mc.PlcSeries.{PlcSeries}
use melsec_mc.Device.{Device}
use melsec_mc.Json.{Json, IsJson}
use melsec_mc.Registry.{any, CommandSpec, effective_sub, low_bytes}
use melsec_mc.Registry.Fields.{write_fields, write_request_fields}
use melsec_mc.Registry.Blocks.{build_request}
use melsec_mc.Registry.Params.{create_read_words_params}
use melsec_mc.Registry.FixedFields.{
  read_fields, addr_width, code_width, device_code_valid, templates_valid, fields_of_series,
  written-low_bytes, nothing_appended,
}

module _ (j : Json) (laws : IsJson j) (addr code count : ℕ) where
  abbrev params : j.Value
  params =
      create_read_words_params j (record { start_addr = some addr; device_code = some code }) count

  param_count : j.get params "count" ≡ some (j.number count)
  unfolding create_read_words_params
  param_count =
      laws.get-object _ "count"
      ∙ laws.lookup-insert_other _ "data_blocks" "count" _ refl
      ∙ laws.lookup-insert _ "count" _

  param_code : j.get params "device_code" ≡ some (j.number code)
  unfolding create_read_words_params
  param_code =
      laws.get-object _ "device_code"
      ∙ laws.lookup-insert_other _ "data_blocks" "device_code" _ refl
      ∙ laws.lookup-insert_other _ "count" "device_code" _ refl
      ∙ laws.lookup-insert _ "device_code" _

  param_addr : j.get params "start_addr" ≡ some (j.number addr)
  unfolding create_read_words_params
  param_addr =
      laws.get-object _ "start_addr"
      ∙ laws.lookup-insert_other _ "data_blocks" "start_addr" _ refl
      ∙ laws.lookup-insert_other _ "count" "start_addr" _ refl
      ∙ laws.lookup-insert_other _ "device_code" "start_addr" _ refl
      ∙ laws.lookup-insert _ "start_addr" _

  -- The request data of a read of words, over JSON values with their documented laws, for a
  -- specification with the fields of `read_words` in src/commands.toml, no blocks and the
  -- family `Any`, whatever the limits and the devices are, with an address and a count below
  -- 2 ^ 64 and a code below 256: the command and the subcommand of the series, the address, the
  -- code and the count, each low byte first. The address has 3 bytes and the code 1 for the Q
  -- series, 4 and 2 for the R series.
  pub build_request-read_words :
      (devices : List Device) (spec : CommandSpec) (series : PlcSeries)
      → spec.request_fields ≡ read_fields
      → spec.block_templates ≡ []
      → spec.device_family ≡ any
      → addr < 2 ^ 64
      → code < 256
      → count < 2 ^ 64
      → build_request j devices spec
          (create_read_words_params j
            (record { start_addr = some addr; device_code = some code })
            count)
          (some series)
        ≡ ok (
            low_bytes 2 spec.command_code
            ++ (low_bytes 2 (effective_sub spec.subcommand (some series))
                ++ (low_bytes (addr_width series) addr
                    ++ (low_bytes (code_width series) code ++ low_bytes 2 count))))
  unfolding build_request write_request_fields
  build_request-read_words devices spec series fields blocks family ha hc hn =
      rw
        (
          device_code_valid j laws addr code count params param_addr param_code param_count devices
              spec family hc,
          templates_valid j laws addr code count params param_addr param_code param_count devices
              spec blocks,
          ap (λ fs. write_fields j spec fs params (some series) []) fields
              ∙ fields_of_series j laws addr code count params param_addr param_code param_count
                  spec series ha hc hn,
          written-low_bytes j laws addr code count params param_addr param_code param_count spec
              (some series) (addr_width series) (code_width series),
        )
        (nothing_appended j laws addr code count params param_addr param_code param_count devices
          spec (some series) _ blocks)
