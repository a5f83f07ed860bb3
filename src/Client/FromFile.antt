-- ===== src/Client/FromFile.antt =====
-- A read of words from the definitions' file and the device's text to the device's words.
use Prim.Native.Char.{Char}
use Prim.Native.String.{String}
use melsec_mc.Prelude.{
  ℕ, ◌^◌, ◌<◌, ◌≡◌, sym, ◌∙◌, ap, arith, true, Option, none, some, List, [], ◌∷◌, length, All,
}
use melsec_mc.Error.{ok-inj, Result, ok}
use melsec_mc.Bytes.{Bytes, IsU16}
use melsec_mc.Request.{McRequest}
use melsec_mc.Config.{Config}
use melsec_mc.Command.{Command}
use melsec_mc.ErrorCodes.{Global}
use melsec_mc.Device.{Device}
use melsec_mc.Device.Address.Parsed.{Denotes}
use melsec_mc.Json.{Json, IsJson}
use melsec_mc.Registry.{SubcommandSpec, CommandSpec, effective_sub}
use melsec_mc.Registry.Blocks.{build_request}
use melsec_mc.Registry.Params.{located, create_read_words_params}
use melsec_mc.Registry.DeviceText.{read_request, build_request-device_text}
use melsec_mc.Registry.File.{Toml, CommandSpecRaw, sub_spec, parse_command_file}
use melsec_mc.Registry.File.Commands.{last_raw, IsFound, parse_command_file-IsFound}
use melsec_mc.Registry.File.ReadWords.{IsReadWords, IsReadSpec, parse_command-IsReadSpec}
use melsec_mc.Registry.Response.{number_values}
use melsec_mc.Registry.Response.Words.{bytes_of_words}
use melsec_mc.Client.{McClient}
use melsec_mc.Client.Commands.{read_words}
use melsec_mc.Client.Exchange.{IsAnsweredBy, read_words-IsAnsweredBy}

module _ (j : Json) (laws : IsJson j) (t : Toml) (iterated : List (String × ℕ) → List (String × ℕ))
    (other : Char → String) (names : ℕ → String) (devices : List Device) where
  -- The request that is sent.
  abbrev pub request_of :
      CommandSpecRaw t.Value → Option SubcommandSpec → McClient → ℕ → Device → ℕ → Bytes
  request_of raw sub client addr device count =
      read_request raw.command_code (effective_sub sub (some client.plc_series)) client.plc_series
        addr device.device_code count

  request-built :
      (raw : CommandSpecRaw t.Value) (spec : CommandSpec) (sub : Option SubcommandSpec)
      (client : McClient) (text : String) (device : Device) (addr count : ℕ)
      → IsReadSpec t iterated raw spec
      → sub_spec t iterated raw.subcommand ≡ ok sub
      → Denotes other names devices text device addr
      → device.device_code < 256
      → count < 2 ^ 64
      → build_request j devices spec
          (create_read_words_params j (located other names devices text) count)
          (some client.plc_series)
        ≡ ok (request_of raw sub client addr device count)
  request-built raw spec sub client text device addr count
        (fields, blocks, family, entries, code_eq, sub_eq) given denotes code_small count_small =
      build_request-device_text other names devices j laws text device addr count spec
        client.plc_series denotes code_small count_small fields blocks family
      ∙ ap
          (λ (k : ℕ). ok (
            read_request k (effective_sub spec.subcommand (some client.plc_series))
              client.plc_series addr device.device_code count))
          code_eq
      ∙ ap (λ (x : Option SubcommandSpec). ok (request_of raw x client addr device count))
          (ok-inj _ _ (sym sub_eq ∙ given))

  module _ {S : Type 0} (exchange : Bytes → S → Result Bytes × S) (config : Config) (codes : Global)
      (client : McClient) where
    -- A read of words returns the words of the device, from the definitions' file and the
    -- device's text on. The file of commands is accepted, and its last entry for `read_words` has
    -- the formats of the one in src/commands.toml, no blocks and the family `Any`; the text
    -- denotes a device, whose code is below 256, and a number; the JSON values keep their
    -- documented laws; and after fewer failures than there are attempts the transport answers the
    -- request for as many words, fewer than 65536, with an MC4E response with end code 0 whose
    -- data are the words. Then the result has these words as its one block under "data_blocks",
    -- with the serial counter and the transport's state after the exchange.
    pub read_words-from_file :
        (raws : List (CommandSpecRaw t.Value)) (by_id : Command → Option CommandSpec)
        (raw : CommandSpecRaw t.Value) (sub : Option SubcommandSpec) (text : String)
        (device : Device) (addr : ℕ) (ws : List ℕ) (counter : ℕ) (s u : S) (a : McRequest)
        → parse_command_file t iterated raws ≡ ok by_id
        → last_raw t iterated raws Command.read_words none ≡ some raw
        → IsReadWords raw
        → sub_spec t iterated raw.subcommand ≡ ok sub
        → Denotes other names devices text device addr
        → device.device_code < 256
        → (answer : IsAnsweredBy exchange config client
            (request_of raw sub client addr device (length ws))
            counter
            s
            u
            a)
        → a.request_data ≡ bytes_of_words true ws
        → All IsU16 ws
        → length ws < 2 ^ 16
        → (v : j.Value) × (read_words j devices
              (some by_id)
              exchange
              config
              codes
              client
              (located other names devices text)
              (length ws)
              counter
              s
            ≡ record { outcome = ok v; counter = answer.counter_after; state = u })
          × (j.get v "data_blocks" ≡ some (j.array (j.array (number_values j ws) ∷ [])))
    read_words-from_file raws by_id raw sub text device addr ws counter s u a accepted last formats
          given denotes code_small answer same words small =
        let found : IsFound t iterated (some raw) (by_id Command.read_words) =
          rw last at
            (parse_command_file-IsFound t iterated raws by_id Command.read_words accepted) in
        let (spec, parsed, at_id) = found in
        let is_read = parse_command-IsReadSpec t iterated raw spec formats parsed in
        read_words-IsAnsweredBy j laws devices exchange config codes client by_id spec true
          (located other names devices text) ws _ counter s u a at_id is_read.3
          (request-built raw spec sub client text device addr (length ws) is_read given denotes
            code_small (omega arith))
          answer same words small
