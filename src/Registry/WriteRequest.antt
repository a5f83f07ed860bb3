-- ===== src/Registry/WriteRequest.antt =====
-- The request data of a write of words, byte by byte, from the device's text on.
use Prim.Native.Char.{Char}
use Prim.Native.String.{String}
use melsec_mc.Prelude.{
  ℕ, ◌^◌, ◌<◌, ◌≡◌, refl, ◌∙◌, ap, true, Option, some, List, [], ◌∷◌, ◌++◌, arith, length, All,
}
use melsec_mc.Error.{ok, ok-inj, bind-eq-ok}
use melsec_mc.Bytes.{Bytes, IsU16}
use melsec_mc.PlcSeries.{PlcSeries}
use melsec_mc.Device.{Device}
use melsec_mc.Device.Address.Parsed.{Denotes, parse_device_and_address-Denotes}
use melsec_mc.Json.{Json, IsJson}
use melsec_mc.Registry.{FieldSpec, words, any, CommandSpec, effective_sub}
use melsec_mc.Registry.Fields.{
  write_field, write_fields, words_of_array, write_words_field, write_request_fields,
}
use melsec_mc.Registry.Blocks.{build_request}
use melsec_mc.Registry.Params.{located, create_write_words_params}
use melsec_mc.Registry.Response.{number_values}
use melsec_mc.Registry.Response.Words.{bytes_of_words, word_items-written}
use melsec_mc.Registry.FixedFields.{
  read_fields, addr_width, code_width, device_code_valid, templates_valid, fields_of_series,
  written-low_bytes, nothing_appended,
}
use melsec_mc.Registry.DeviceText.{read_request, located-parsed}

-- The request format of `write_words` in src/commands.toml.
abbrev pub write_words_fields : List FieldSpec
write_words_fields = read_fields ++ (record { name = "data"; kind = words true } ∷ [])

write_fields-append :
    (j : Json) (spec : CommandSpec) (fs gs : List FieldSpec) (params : j.Value)
    (series : Option PlcSeries) (out out' : Bytes)
    → write_fields j spec fs params series out ≡ ok out'
    → write_fields j spec (fs ++ gs) params series out ≡ write_fields j spec gs params series out'
unfolding write_fields
write_fields-append j spec [] gs params series out out' e =
    ap (λ (o : Bytes). write_fields j spec gs params series o) (ok-inj out out' e)
write_fields-append j spec (f ∷ fs) gs params series out out' e =
    let (o, first, rest) = bind-eq-ok (write_field j spec f params series out) _ e in
    rw first (write_fields-append j spec fs gs params series o out' rest)

module _ (j : Json) (laws : IsJson j) (addr code : ℕ) (ws : List ℕ) where
  abbrev params : j.Value
  params =
      create_write_words_params j (record { start_addr = some addr; device_code = some code }) ws

  param_data : j.get params "data" ≡ some (j.array (number_values j ws))
  unfolding create_write_words_params
  param_data = laws.get-object _ "data" ∙ laws.lookup-insert _ "data" _

  param_count : j.get params "count" ≡ some (j.number (length ws))
  unfolding create_write_words_params
  param_count =
      laws.get-object _ "count"
      ∙ laws.lookup-insert_other _ "data" "count" _ refl
      ∙ laws.lookup-insert _ "count" _

  param_code : j.get params "device_code" ≡ some (j.number code)
  unfolding create_write_words_params
  param_code =
      laws.get-object _ "device_code"
      ∙ laws.lookup-insert_other _ "data" "device_code" _ refl
      ∙ laws.lookup-insert_other _ "count" "device_code" _ refl
      ∙ laws.lookup-insert _ "device_code" _

  param_addr : j.get params "start_addr" ≡ some (j.number addr)
  unfolding create_write_words_params
  param_addr =
      laws.get-object _ "start_addr"
      ∙ laws.lookup-insert_other _ "data" "start_addr" _ refl
      ∙ laws.lookup-insert_other _ "count" "start_addr" _ refl
      ∙ laws.lookup-insert_other _ "device_code" "start_addr" _ refl
      ∙ laws.lookup-insert _ "start_addr" _

  data_written :
      (spec : CommandSpec) (series : Option PlcSeries) (out : Bytes)
      → All IsU16 ws
      → write_fields j spec (record { name = "data"; kind = words true } ∷ []) params series out
        ≡ ok (out ++ bytes_of_words true ws)
  unfolding write_fields write_field write_words_field words_of_array
  data_written spec series out h =
      rw (param_data, laws.as_array-array (number_values j ws))
        (rw (word_items-written j laws true "data" ws out h))

  fields_written :
      (spec : CommandSpec) (series : PlcSeries)
      → addr < 2 ^ 64
      → code < 256
      → length ws < 2 ^ 64
      → All IsU16 ws
      → write_fields j spec write_words_fields params (some series) []
        ≡ ok (
            read_request spec.command_code
              (effective_sub spec.subcommand (some series))
              series
              addr
              code
              (length ws)
            ++ bytes_of_words true ws)
  fields_written spec series ha hc hn h =
      write_fields-append j spec read_fields _ params (some series) [] _ (
        fields_of_series j laws addr code (length ws) params param_addr param_code param_count spec
          series ha hc hn)
      ∙ data_written spec (some series) _ h
      ∙ ap (λ (out : Bytes). ok (out ++ bytes_of_words true ws))
          (written-low_bytes j laws addr code (length ws) params param_addr param_code param_count
            spec (some series) (addr_width series) (code_width series))

  build_request-write_words :
      (devices : List Device) (spec : CommandSpec) (series : PlcSeries)
      → spec.request_fields ≡ write_words_fields
      → spec.block_templates ≡ []
      → spec.device_family ≡ any
      → addr < 2 ^ 64
      → code < 256
      → length ws < 2 ^ 64
      → All IsU16 ws
      → build_request j devices spec params (some series)
        ≡ ok (
            read_request spec.command_code
              (effective_sub spec.subcommand (some series))
              series
              addr
              code
              (length ws)
            ++ bytes_of_words true ws)
  unfolding build_request write_request_fields
  build_request-write_words devices spec series fields blocks family ha hc hn h =
      rw
        (
          device_code_valid j laws addr code (length ws) params param_addr param_code param_count
              devices spec family hc,
          templates_valid j laws addr code (length ws) params param_addr param_code param_count
              devices spec blocks,
          ap (λ fs. write_fields j spec fs params (some series) []) fields
              ∙ fields_written spec series ha hc hn h,
        )
        (nothing_appended j laws addr code (length ws) params param_addr param_code param_count
          devices spec (some series) _ blocks)

-- The request data of a write of words to a device's text: the command, the subcommand of the
-- series, the number in the text, the code of the device in it and the number of words, each low
-- byte first, in the widths of the series, and behind them two bytes for each word, low byte
-- first. The text denotes the device and the number; the specification has the fields of
-- `write_words` in src/commands.toml, no blocks and the family `Any`; there are fewer than 2 ^ 64
-- words, each below 65536; the device's code is below 256, and JSON values keep their documented
-- laws.
pub build_request-write_text :
    (other : Char → String) (names : ℕ → String) (devices : List Device) (j : Json)
    (laws : IsJson j) (text : String) (device : Device) (addr : ℕ) (ws : List ℕ)
    (spec : CommandSpec) (series : PlcSeries)
    → Denotes other names devices text device addr
    → device.device_code < 256
    → length ws < 2 ^ 64
    → All IsU16 ws
    → spec.request_fields ≡ write_words_fields
    → spec.block_templates ≡ []
    → spec.device_family ≡ any
    → build_request j devices spec
        (create_write_words_params j (located other names devices text) ws)
        (some series)
      ≡ ok (
          read_request spec.command_code
            (effective_sub spec.subcommand (some series))
            series
            addr
            device.device_code
            (length ws)
          ++ bytes_of_words true ws)
build_request-write_text other names devices j laws text device addr ws spec series denotes
      code_small few h fields blocks family =
    let parsed = parse_device_and_address-Denotes other names devices text device addr denotes in
    let in_range = denotes.in_range in
    rw (located-parsed other names devices text device addr parsed) (
      build_request-write_words j laws addr device.device_code ws devices spec series fields blocks
        family (omega arith) code_small few h)
