-- ===== src/Client/Written.antt =====
-- A write of words, from the device's text to the acknowledgement.
use Prim.Native.Char.{Char}
use Prim.Native.String.{String}
use melsec_mc.Prelude.{ℕ, ◌^◌, ◌<◌, ◌≡◌, true, some, Option, List, [], ◌++◌, length, All}
use melsec_mc.Error.{Result, ok, ◌>>=◌}
use melsec_mc.Bytes.{Bytes, IsU16}
use melsec_mc.Request.{McRequest}
use melsec_mc.Config.{Config}
use melsec_mc.Command.{Command}
use melsec_mc.ErrorCodes.{Global}
use melsec_mc.Device.{Device}
use melsec_mc.Device.Address.Parsed.{Denotes}
use melsec_mc.Json.{Json, IsJson}
use melsec_mc.Registry.{CommandSpec, any, effective_sub}
use melsec_mc.Registry.Params.{located, create_write_words_params}
use melsec_mc.Registry.Response.{parse_response}
use melsec_mc.Registry.Response.Words.{bytes_of_words}
use melsec_mc.Registry.Response.ReadBack.{parse_response_no_entries}
use melsec_mc.Registry.DeviceText.{read_request}
use melsec_mc.Registry.WriteRequest.{write_words_fields, build_request-write_text}
use melsec_mc.Client.{McClient}
use melsec_mc.Client.Commands.{spec_of, run_spec, write_words}
use melsec_mc.Client.Exchange.{IsAnsweredBy, perform-framed}

module _ (other : Char → String) (names : ℕ → String) (devices : List Device) (j : Json)
    (laws : IsJson j) {S : Type 0} (exchange : Bytes → S → Result Bytes × S) (config : Config)
    (codes : Global) (client : McClient) where
  -- The request of a write of words.
  abbrev pub write_request : CommandSpec → Device → ℕ → List ℕ → Bytes
  write_request spec device addr ws =
      read_request spec.command_code (effective_sub spec.subcommand (some client.plc_series))
        client.plc_series addr device.device_code (length ws)
      ++ bytes_of_words true ws

  -- A write of words to a device's text sends the words to the device, and succeeds when the
  -- device acknowledges it. The registry's specification of `write_words` has the fields of the one
  -- in src/commands.toml, no blocks, no response entries and the family `Any`; the text denotes a
  -- device, whose code is below 256, and a number; there are fewer than 2 ^ 64 words, each below
  -- 65536; the JSON values keep their documented laws; and after fewer failures than there are
  -- attempts the transport answers the request with the command, the subcommand of the series, the
  -- number, the code, the number of words and the words by an MC4E response with end code 0. Then
  -- the result is an empty object, with the serial counter and the transport's state after the
  -- exchange.
  pub write_words-IsAnsweredBy :
      (specs : Command → Option CommandSpec) (spec : CommandSpec) (text : String) (device : Device)
      (addr : ℕ) (ws : List ℕ) (counter : ℕ) (s u : S) (a : McRequest)
      → specs Command.write_words ≡ some spec
      → spec.request_fields ≡ write_words_fields
      → spec.block_templates ≡ []
      → spec.response_entries ≡ []
      → spec.device_family ≡ any
      → Denotes other names devices text device addr
      → device.device_code < 256
      → length ws < 2 ^ 64
      → All IsU16 ws
      → (answer : IsAnsweredBy exchange config client
          (write_request spec device addr ws)
          counter
          s
          u
          a)
      → write_words j devices
          (some specs)
          exchange
          config
          codes
          client
          (located other names devices text)
          ws
          counter
          s
        ≡ record { outcome = ok (j.object j.empty); counter = answer.counter_after; state = u }
  unfolding write_words run_spec spec_of
  write_words-IsAnsweredBy specs spec text device addr ws counter s u a found fields blocks entries
        family denotes code_small few h answer =
      let params = create_write_words_params j (located other names devices text) ws in
      rw (
        found,
        run_spec,
        build_request-write_text other names devices j laws text device addr ws spec
            client.plc_series denotes code_small few h fields blocks family,
        perform-framed exchange config codes client
            (λ buf. parse_response j devices spec params buf >>= ok)
            (write_request spec device addr ws) answer.mc_payload counter answer.counter_after
            answer.failures s answer.before u a answer.frames answer.failing answer.answers
            answer.enough answer.answer_is_request answer.is_response answer.success,
        parse_response_no_entries j devices spec params a.request_data entries,
      )
