-- ===== src/Registry/DeviceText.antt =====
-- From a device's text to the request data of a read of words.
use Prim.Native.Char.{Char}
use Prim.Native.String.{String}
use melsec_mc.Prelude.{ℕ, ◌^◌, ◌<◌, ◌≡◌, arith, some, List, [], ◌++◌}
use melsec_mc.Error.{ok}
use melsec_mc.PlcSeries.{PlcSeries}
use melsec_mc.Device.{Device}
use melsec_mc.Device.Address.{parse_device_and_address}
use melsec_mc.Device.Address.Parsed.{Denotes, parse_device_and_address-Denotes}
use melsec_mc.Bytes.{Bytes}
use melsec_mc.Json.{Json, IsJson}
use melsec_mc.Registry.{CommandSpec, any, effective_sub, low_bytes}
use melsec_mc.Registry.Blocks.{build_request}
use melsec_mc.Registry.Params.{located, create_read_words_params}
use melsec_mc.Registry.FixedFields.{read_fields, addr_width, code_width}
use melsec_mc.Registry.ReadRequest.{build_request-read_words}

-- The command and the subcommand of the series, the address, the device's code and the count, each
-- low byte first, in the widths of the series.
abbrev pub read_request : ℕ → ℕ → PlcSeries → ℕ → ℕ → ℕ → Bytes
read_request command_code sub series addr code count =
    low_bytes 2 command_code
    ++ (low_bytes 2 sub
        ++ (low_bytes (addr_width series) addr
            ++ (low_bytes (code_width series) code ++ low_bytes 2 count)))

module _ (other : Char → String) (names : ℕ → String) (devices : List Device) where
  pub located-parsed :
      (text : String) (device : Device) (addr : ℕ)
      → parse_device_and_address other names devices text ≡ ok (device, addr)
      → located other names devices text
        ≡ record { start_addr = some addr; device_code = some device.device_code }
  unfolding located
  located-parsed text device addr e = rw (e, located)

  -- The request data of a read of words from a device's text: the command, the subcommand of the
  -- series, the number in the text, the code of the device in it and the count, each low byte
  -- first, in the widths of the series. The text denotes the device and the number; the
  -- specification has the fields of `read_words` in src/commands.toml, no blocks and the family
  -- `Any`; the count is below 2 ^ 64, the device's code below 256, and JSON values keep their
  -- documented laws.
  pub build_request-device_text :
      (j : Json) (laws : IsJson j) (text : String) (device : Device) (addr count : ℕ)
      (spec : CommandSpec) (series : PlcSeries)
      → Denotes other names devices text device addr
      → device.device_code < 256
      → count < 2 ^ 64
      → spec.request_fields ≡ read_fields
      → spec.block_templates ≡ []
      → spec.device_family ≡ any
      → build_request j devices spec
          (create_read_words_params j (located other names devices text) count)
          (some series)
        ≡ ok (
            read_request spec.command_code
              (effective_sub spec.subcommand (some series))
              series
              addr
              device.device_code
              count)
  build_request-device_text j laws text device addr count spec series denotes code_small count_small
        fields blocks family =
      let parsed = parse_device_and_address-Denotes other names devices text device addr denotes in
      let in_range = denotes.in_range in
      rw (located-parsed text device addr parsed) (
        build_request-read_words j laws addr device.device_code count devices spec series fields
          blocks family (omega arith) code_small count_small)
