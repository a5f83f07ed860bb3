-- ===== src/Registry/Tests.antt =====
-- Values at which the theorems on command_registry.rs apply.
use melsec_mc.Prelude.{◌≡◌, ◌≢◌, refl, true, none, some, [], ◌∷◌, ◌++◌, arith}
use melsec_mc.Error.{ok, panic}
use melsec_mc.Command as Command
use melsec_mc.Json.Plain.{plain, plain-IsJson}
use melsec_mc.Registry.{CommandSpec, any, single, block_words}
use melsec_mc.Registry.Params.{create_read_words_params}
use melsec_mc.Registry.Response.{number_values, parse_response, blocks_of, read_block_count}
use melsec_mc.Registry.Response.Words.{bytes_of_words}
use melsec_mc.Registry.Response.Bounds.{parse_response-ne-panic}
use melsec_mc.Registry.Response.ReadBack.{parse_response-words}

abbrev spec : CommandSpec
spec = record {
  id = Command.read_words;
  name = none;
  command_code = 0x0401;
  subcommand = some (single 0);
  device_family = any;
  request_fields = [];
  response_format = "data_blocks:blocks_words_le" ∷ [];
  response_entries = block_words "data_blocks" true ∷ [];
  block_templates = [];
  limits = none;
}

parse_response-ne-panic_example :
    parse_response plain [] spec
      (create_read_words_params plain (record { start_addr = none; device_code = none }) 2)
      (1 ∷ [])
    ≢ panic
unfolding blocks_of read_block_count plain create_read_words_params
parse_response-ne-panic_example =
    parse_response-ne-panic plain [] spec
      (create_read_words_params plain (record { start_addr = none; device_code = none }) 2) (1 ∷ [])
      (omega arith) ((omega arith, tt), tt)

parse_response-words_example :
    (v : plain.Value) × (parse_response plain [] spec
        (create_read_words_params plain (record { start_addr = none; device_code = none }) 2)
        (bytes_of_words true (5 ∷ 6 ∷ []) ++ (9 ∷ []))
      ≡ ok v)
    × (plain.get v "data_blocks"
        ≡ some (plain.array (plain.array (number_values plain (5 ∷ 6 ∷ [])) ∷ [])))
parse_response-words_example =
    parse_response-words plain plain-IsJson [] spec true
      (record { start_addr = none; device_code = none }) (5 ∷ 6 ∷ []) (9 ∷ []) refl (omega arith)
      (omega arith)
