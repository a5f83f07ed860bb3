-- ===== src/Client/BitsTests.antt =====
-- A response with four points, at which the theorem on a read of bits applies.
use melsec_mc.Prelude.{ℕ, ◌≡◌, refl, true, false, Option, none, some, [], ◌∷◌, arith}
use melsec_mc.Error.{Result, ok}
use melsec_mc.Bytes.{Bytes}
use melsec_mc.McDefine.{mc4e, default_route}
use melsec_mc.McDefine.Route.{default_route-IsRoute}
use melsec_mc.Request.{
  McRequest, IsRequest, build_with_format, new, next_serial, bumped, try_with_request_data,
}
use melsec_mc.Config.{default_config}
use melsec_mc.Command.{Command}
use melsec_mc.PlcSeries.{q}
use melsec_mc.Device.{device_by_code}
use melsec_mc.Json.Plain.{plain, plain-IsJson}
use melsec_mc.Registry as Registry
use melsec_mc.Registry.{
  write_n_bytes, effective_layout, CommandSpec, fixed_bytes, per_series, block_words, FieldSpec,
}
use melsec_mc.Registry.Blocks.{build_request, append_blocks, validate_block_limits, emit_blocks}
use melsec_mc.Registry.Fields.{
  write_request_fields, validate_code_for_family, family_of_device, validate_device_code,
  validate_templates, write_fields, write_field, write_fixed_bytes_field, get_num_field, number_of,
  request_layout,
}
use melsec_mc.Registry.Params.{Located}
use melsec_mc.Client.{framed}
use melsec_mc.Client.Retry.{none_failed}
use melsec_mc.Client.Exchange.{IsAnsweredBy}
use melsec_mc.Registry.{block_nibbles}
use melsec_mc.Registry.Params.{create_read_bits_params}
use melsec_mc.Registry.Response.{bool_values}
use melsec_mc.Registry.Nibbles.{pack_nibbles}
use melsec_mc.Client.Commands.{read_bits}
use melsec_mc.Client.Bits.{read_bits-IsAnsweredBy}
use melsec_mc.Client.Tests.{client}

-- Points on, off, off, on.
abbrev answer : McRequest
answer = record {
  subheader = (0xD4, 0x00);
  access_route = default_route;
  request_data_len = 4;
  monitoring_timer = 0;
  request_data = 0x10 ∷ 0x01 ∷ [];
  serial_number = 2;
}

answer-IsRequest : IsRequest answer
answer-IsRequest = record {
  subheader_bytes = omega arith;
  route = default_route-IsRoute;
  data_len = refl;
  data_fits = omega arith;
  timer_word = omega arith;
  data_bytes = omega arith;
  serial_word = omega arith;
}

abbrev points_sent : Bytes → ℕ → Result Bytes × ℕ
points_sent payload s = (ok (build_with_format answer mc4e), s)

abbrev spec : CommandSpec
spec = record {
  id = Command.read_bits;
  name = none;
  command_code = 0x0401;
  subcommand = some (per_series (("Q", 1) ∷ ("R", 3) ∷ []));
  device_family = Registry.any;
  request_fields =
      record { name = "command"; kind = fixed_bytes 2 false }
      ∷ record { name = "start_addr"; kind = fixed_bytes 3 true }
      ∷ record { name = "device_code"; kind = fixed_bytes 1 true }
      ∷ record { name = "count"; kind = fixed_bytes 2 true }
      ∷ [];
  response_format = "data_blocks:blocks_nibbles:high" ∷ [];
  response_entries = block_nibbles "data_blocks" true ∷ [];
  block_templates = [];
  limits = none;
}

abbrev specs : Command → Option CommandSpec
specs Command.read_bits = some spec
specs _ = none

abbrev at_d0 : Located
at_d0 = record { start_addr = some 0; device_code = some 0xA8 }

abbrev request_data : Bytes
request_data = 1 ∷ 4 ∷ 0 ∷ 0 ∷ 0 ∷ 0xA8 ∷ 4 ∷ 0 ∷ []

built :
    build_request plain [] spec (create_read_bits_params plain at_d0 4) (some q) ≡ ok request_data
unfolding build_request append_blocks validate_block_limits emit_blocks write_request_fields
    validate_device_code validate_templates write_fields write_field write_fixed_bytes_field
    get_num_field number_of request_layout plain create_read_bits_params validate_code_for_family
    family_of_device device_by_code write_n_bytes effective_layout
built = refl

abbrev sent_request : McRequest
sent_request = record {
  subheader = (0x54, 0x00);
  access_route = default_route;
  request_data_len = 10;
  monitoring_timer = 0x1000;
  request_data = request_data;
  serial_number = 2;
}

answered : IsAnsweredBy points_sent default_config client request_data 1 0 0 answer
unfolding framed new try_with_request_data next_serial bumped
answered = record {
  mc_payload = build_with_format sent_request mc4e;
  counter_after = 2;
  frames = refl;
  failures = 0;
  before = 0;
  failing = none_failed 0;
  answers = refl;
  enough = omega arith;
  answer_is_request = answer-IsRequest;
  is_response = refl;
  success = refl;
}

read_bits-IsAnsweredBy_example :
    (v : plain.Value) × (read_bits plain []
        (some specs)
        points_sent
        default_config
        none
        client
        at_d0
        4
        1
        0
      ≡ record { outcome = ok v; counter = answered.counter_after; state = 0 })
    × (plain.get v "data_blocks"
        ≡ some
            (plain.array (plain.array (bool_values plain (true ∷ false ∷ false ∷ true ∷ [])) ∷ [])))
unfolding pack_nibbles
read_bits-IsAnsweredBy_example =
    read_bits-IsAnsweredBy plain plain-IsJson [] points_sent default_config none client specs spec
      at_d0 (true ∷ false ∷ false ∷ true ∷ []) request_data 1 0 0 answer refl refl built answered
      refl (omega arith)
