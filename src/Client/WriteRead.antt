-- ===== src/Client/WriteRead.antt =====
-- A write of words, and a read of them from the same device after it.
use Prim.Native.Char.{Char}
use Prim.Native.String.{String}
use melsec_mc.Prelude.{
  ℕ, ◌+◌, ◌%◌, ◌≤◌, ◌<◌, ◌≡◌, refl, ◌∙◌, ap, arith, true, Option, some, List, [], ◌∷◌, ◌++◌, length,
  length-append, All, All-append,
}
use melsec_mc.Error.{Result, ok}
use melsec_mc.Bytes.{Bytes, IsByte, IsU16}
use melsec_mc.Config.{Config}
use melsec_mc.Command.{Command}
use melsec_mc.ErrorCodes.{Global}
use melsec_mc.Device.{Device}
use melsec_mc.Device.Address.Parsed.{Denotes}
use melsec_mc.Json.{Json, IsJson}
use melsec_mc.Registry.{CommandSpec, any, block_words, effective_sub}
use melsec_mc.Registry.Params.{located}
use melsec_mc.Registry.Response.{number_values}
use melsec_mc.Registry.Response.Words.{bytes_of_words, length-bytes_of_words}
use melsec_mc.Registry.FixedFields.{read_fields}
use melsec_mc.Registry.DeviceText.{read_request, build_request-device_text}
use melsec_mc.Registry.WriteRequest.{write_words_fields}
use melsec_mc.Client.{McClient, Done}
use melsec_mc.Client.Commands.{read_words, write_words}
use melsec_mc.Client.Exchange.{read_words-IsAnsweredBy}
use melsec_mc.Client.Written.{write_words-IsAnsweredBy}
use melsec_mc.Client.Framed.{request_with}
use melsec_mc.Client.Plc.{
  IsPlc, IsReady, answered_by_plc, bytes_of_words-IsBytes, read_request-IsBytes,
  length-read_request,
}

-- The specifications of the two commands, with the formats of src/commands.toml.
pub record IsReadSpec (spec : CommandSpec) : Type 0 where
  pub code : spec.command_code ≡ 0x0401
  pub fields : spec.request_fields ≡ read_fields
  pub blocks : spec.block_templates ≡ []
  pub family : spec.device_family ≡ any
  pub entries : spec.response_entries ≡ block_words "data_blocks" true ∷ []

pub record IsWriteSpec (spec : CommandSpec) : Type 0 where
  pub code : spec.command_code ≡ 0x1401
  pub fields : spec.request_fields ≡ write_words_fields
  pub blocks : spec.block_templates ≡ []
  pub family : spec.device_family ≡ any
  pub entries : spec.response_entries ≡ []

module _ {S : Type 0} (exchange : Bytes → S → Result Bytes × S) (config : Config)
    (client : McClient) (read_sub write_sub : ℕ)
    (plc : IsPlc exchange client.plc_series read_sub write_sub)
    (ready : IsReady client config) where
  module _ (other : Char → String) (names : ℕ → String) (devices : List Device) (j : Json)
      (laws : IsJson j) (codes : Global) (specs : Command → Option CommandSpec)
      (rspec wspec : CommandSpec) where
    abbrev pub written : String → List ℕ → ℕ → S → Done S j.Value
    written text ws counter s =
        write_words j devices (some specs) exchange config codes client
          (located other names devices text) ws counter s

    abbrev pub read_back : String → ℕ → Done S j.Value → Done S j.Value
    read_back text count after =
        read_words j devices (some specs) exchange config codes client
          (located other names devices text) count after.counter after.state

    write_lem :
        (text : String) (device : Device) (addr : ℕ) (ws : List ℕ) (counter : ℕ) (s : S)
        → specs Command.write_words ≡ some wspec
        → IsWriteSpec wspec
        → effective_sub wspec.subcommand (some client.plc_series) ≡ write_sub
        → Denotes other names devices text device addr
        → device.device_code < 256
        → All IsU16 ws
        → length ws ≤ 32760
        → 1 ≤ counter
        → counter ≤ 65535
        → written text ws counter s ≡ record {
          outcome = ok (j.object j.empty);
          counter = counter % 65535 + 1;
          state = plc.store s device.device_code addr ws;
        }
    unfolding answered_by_plc
    write_lem text device addr ws counter s found spec sub denotes code_small h few low high =
        let req : Bytes =
          read_request wspec.command_code (effective_sub wspec.subcommand (some client.plc_series))
            client.plc_series addr device.device_code (length ws) in
        let d = req ++ bytes_of_words true ws in
        let e : plc.execute d s ≡ ([], plc.store s device.device_code addr ws) =
          rw (spec.code, sub) (plc.execute_write s device.device_code addr ws h) in
        write_words-IsAnsweredBy other names devices j laws exchange config codes client specs wspec
          text device addr ws counter s (plc.store s device.device_code addr ws) _ found spec.fields
          spec.blocks spec.entries spec.family denotes code_small (omega arith) h
          (answered_by_plc exchange config client read_sub write_sub plc ready d [] counter s
            (plc.store s device.device_code addr ws) low high
            (All-append IsByte req (bytes_of_words true ws)
              (read_request-IsBytes wspec.command_code
                (effective_sub wspec.subcommand (some client.plc_series)) client.plc_series addr
                device.device_code (length ws))
              (bytes_of_words-IsBytes ws))
            (omega (
              arith,
              length-append req (bytes_of_words true ws),
              length-read_request wspec.command_code
                  (effective_sub wspec.subcommand (some client.plc_series)) client.plc_series addr
                  device.device_code (length ws),
              length-bytes_of_words true ws,
            ))
            tt (omega arith) e)

    read_lem :
        (text : String) (device : Device) (addr : ℕ) (ws : List ℕ) (counter : ℕ) (s : S)
        → specs Command.read_words ≡ some rspec
        → IsReadSpec rspec
        → effective_sub rspec.subcommand (some client.plc_series) ≡ read_sub
        → Denotes other names devices text device addr
        → device.device_code < 256
        → All IsU16 ws
        → length ws ≤ 32760
        → 1 ≤ counter
        → counter ≤ 65535
        → plc.load s device.device_code addr (length ws) ≡ ws
        → (v : j.Value) × ((read_words j devices
              (some specs)
              exchange
              config
              codes
              client
              (located other names devices text)
              (length ws)
              counter
              s).outcome
            ≡ ok v)
          × (j.get v "data_blocks" ≡ some (j.array (j.array (number_values j ws) ∷ [])))
    read_lem text device addr ws counter s found spec sub denotes code_small h few low high holds =
        let d : Bytes =
          read_request rspec.command_code (effective_sub rspec.subcommand (some client.plc_series))
            client.plc_series addr device.device_code (length ws) in
        let e : plc.execute d s ≡ (bytes_of_words true ws, s) =
          rw (spec.code, sub) (plc.execute_read s device.device_code addr (length ws) (omega arith))
          ∙ ap (λ (l : List ℕ). (bytes_of_words true l, s)) holds in
        let answer =
          answered_by_plc exchange config client read_sub write_sub plc ready d
            (bytes_of_words true ws) counter s s low high
            (read_request-IsBytes rspec.command_code
              (effective_sub rspec.subcommand (some client.plc_series)) client.plc_series addr
              device.device_code (length ws))
            (omega (
              arith,
              length-read_request rspec.command_code
                  (effective_sub rspec.subcommand (some client.plc_series)) client.plc_series addr
                  device.device_code (length ws),
            ))
            (bytes_of_words-IsBytes ws) (omega (arith, length-bytes_of_words true ws)) e in
        let (v, reads, block) =
          read_words-IsAnsweredBy j laws devices exchange config codes client specs rspec true
            (located other names devices text) ws d counter s s
            (plc.reply (request_with client counter d) (bytes_of_words true ws)) found spec.entries
            (build_request-device_text other names devices j laws text device addr (length ws) rspec
              client.plc_series denotes code_small (omega arith) spec.fields spec.blocks
              spec.family)
            answer (plc.reply_data _ _) h (omega arith) in
        (v, ap (λ (done : Done S j.Value). done.outcome) reads, block)

    -- Words that are written to a device's text are read back from it. The registry has the two
    -- commands with the formats of src/commands.toml and the PLC's subcommands; the client frames its requests in the MC4E
    -- format, with a route of bytes, and makes at least one attempt; the PLC answers every MC4E
    -- request and keeps what is written in its memory; the text denotes a device, whose code is
    -- below 256, and a number; the words, at most 32760, are below 65536; the serial counter is in
    -- 1 to 65535, and the JSON values keep their documented laws. Then the write succeeds, and the
    -- read of as many words that follows it has them as its one block under "data_blocks".
    pub write_words-read_words :
        (text : String) (device : Device) (addr : ℕ) (ws : List ℕ) (counter : ℕ) (s : S)
        → specs Command.write_words ≡ some wspec
        → IsWriteSpec wspec
        → effective_sub wspec.subcommand (some client.plc_series) ≡ write_sub
        → specs Command.read_words ≡ some rspec
        → IsReadSpec rspec
        → effective_sub rspec.subcommand (some client.plc_series) ≡ read_sub
        → Denotes other names devices text device addr
        → device.device_code < 256
        → All IsU16 ws
        → length ws ≤ 32760
        → 1 ≤ counter
        → counter ≤ 65535
        → ((written text ws counter s).outcome ≡ ok (j.object j.empty))
          × (v : j.Value) × ((read_back text (length ws) (written text ws counter s)).outcome
              ≡ ok v)
          × (j.get v "data_blocks" ≡ some (j.array (j.array (number_values j ws) ∷ [])))
    write_words-read_words text device addr ws counter s wfound wrec wsub rfound rrec rsub denotes
          code_small h few low high =
        let (v, reads, block) =
          read_lem text device addr ws (counter % 65535 + 1)
            (plc.store s device.device_code addr ws) rfound rrec rsub denotes code_small h few
            (omega arith) (omega arith) (plc.load-store s device.device_code addr ws h) in
        rw
          (write_lem text device addr ws counter s wfound wrec wsub denotes code_small h few low
            high)
          (refl, v, reads, block)
