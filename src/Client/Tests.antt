-- ===== src/Client/Tests.antt =====
-- Exchanges at which the theorems on mc_client.rs apply.
use melsec_mc.Prelude.{
  pos, ℕ, zero, suc, ◌≡◌, refl, true, false, Option, none, some, [], ◌∷◌, arith,
}
use melsec_mc.Error.{timeout, Result, ok, err}
use melsec_mc.Bytes.{Bytes}
use melsec_mc.McDefine.{mc4e, tcp, default_route}
use melsec_mc.McDefine.Route.{default_route-IsRoute}
use melsec_mc.Request.{
  McRequest, IsRequest, build_with_format, new, next_serial, bumped, try_with_request_data,
}
use melsec_mc.Config.{default_config}
use melsec_mc.Command.{Command}
use melsec_mc.PlcSeries.{q}
use melsec_mc.Device.{device_by_code}
use melsec_mc.Json.Plain.{plain, plain-IsJson}
use melsec_mc.Registry as Registry
use melsec_mc.Registry.{
  write_n_bytes, effective_layout, CommandSpec, fixed_bytes, per_series, block_words, FieldSpec,
}
use melsec_mc.Registry.Blocks.{build_request, append_blocks, validate_block_limits, emit_blocks}
use melsec_mc.Registry.Fields.{
  write_request_fields, validate_code_for_family, family_of_device, validate_device_code,
  validate_templates, write_fields, write_field, write_fixed_bytes_field, get_num_field, number_of,
  request_layout,
}
use melsec_mc.Registry.Params.{Located, create_read_words_params}
use melsec_mc.Registry.Response.Words.{bytes_of_words}
use melsec_mc.Client.{McClient, framed, send_and_recv_with_retry}
use melsec_mc.Client.Retry.{
  Failing, none_failed, failed, backoffs, send_and_recv_with_retry-ok, send_and_recv_with_retry-err,
}
use melsec_mc.Client.Commands.{read_words_as}
use melsec_mc.Client.Typed.{read_words_as-IsAnsweredBy}
use melsec_mc.Codec.{unsigned, flat, from_words_i32, to_words_i32}
use melsec_mc.Codec.Laws.{from_words_i32-IsCodec}
use melsec_mc.Client.Exchange.{IsAnsweredBy}

abbrev pub client : McClient
client = record {
  target = record {
    ip = "127.0.0.1";
    port = 5000;
    addr = "127.0.0.1:5000";
    access_route = default_route;
  };
  plc_series = q;
  protocol = tcp;
  monitoring_timer = 5;
  client_name = "client";
  mc_format = mc4e;
}

-- The words 5 and 6, as a response to the first request.
abbrev pub answer : McRequest
answer = record {
  subheader = (0xD4, 0x00);
  access_route = default_route;
  request_data_len = 6;
  monitoring_timer = 0;
  request_data = 5 ∷ 0 ∷ 6 ∷ 0 ∷ [];
  serial_number = 2;
}

pub answer-IsRequest : IsRequest answer
answer-IsRequest = record {
  subheader_bytes = omega arith;
  route = default_route-IsRoute;
  data_len = refl;
  data_fits = omega arith;
  timer_word = omega arith;
  data_bytes = omega arith;
  serial_word = omega arith;
}

-- A transport that fails while its state is not 0, and answers then.
abbrev pub flaky : Bytes → ℕ → Result Bytes × ℕ
flaky payload zero = (ok (build_with_format answer mc4e), 0)
flaky payload (suc n) = (err timeout, n)

pub one_failure : (payload : Bytes) → Failing flaky payload 1 1 0
one_failure payload = failed 0 1 0 0 timeout refl (none_failed 0)

send_and_recv_with_retry-ok_example :
    send_and_recv_with_retry flaky default_config [] 2
    ≡ record { result = ok (build_with_format answer mc4e); state = 0; sleeps = 100 ∷ 200 ∷ [] }
send_and_recv_with_retry-ok_example =
    send_and_recv_with_retry-ok flaky default_config [] 2 2 0 0 (build_with_format answer mc4e)
      (failed 1 2 1 0 timeout refl (one_failure [])) refl (omega arith) (omega arith)

send_and_recv_with_retry-err_example :
    send_and_recv_with_retry flaky default_config [] 5
    ≡ record { result = err timeout; state = 2; sleeps = backoffs 100 1 2 }
send_and_recv_with_retry-err_example =
    send_and_recv_with_retry-err flaky default_config [] 2 5 3 2 timeout
      (failed 1 5 4 3 timeout refl (failed 0 4 3 3 timeout refl (none_failed 3))) refl refl

abbrev spec : CommandSpec
spec = record {
  id = Command.read_words;
  name = none;
  command_code = 0x0401;
  subcommand = some (per_series (("Q", 0) ∷ ("R", 2) ∷ []));
  device_family = Registry.any;
  request_fields =
      record { name = "command"; kind = fixed_bytes 2 false }
      ∷ record { name = "start_addr"; kind = fixed_bytes 3 true }
      ∷ record { name = "device_code"; kind = fixed_bytes 1 true }
      ∷ record { name = "count"; kind = fixed_bytes 2 true }
      ∷ [];
  response_format = "data_blocks:blocks_words_le" ∷ [];
  response_entries = block_words "data_blocks" true ∷ [];
  block_templates = [];
  limits = none;
}

abbrev specs : Command → Option CommandSpec
specs Command.read_words = some spec
specs _ = none

abbrev at_d0 : Located
at_d0 = record { start_addr = some 0; device_code = some 0xA8 }

abbrev request_data : Bytes
request_data = 1 ∷ 4 ∷ 0 ∷ 0 ∷ 0 ∷ 0xA8 ∷ 2 ∷ 0 ∷ []

built :
    build_request plain [] spec (create_read_words_params plain at_d0 2) (some q) ≡ ok request_data
unfolding build_request append_blocks validate_block_limits emit_blocks write_request_fields
    validate_device_code validate_templates write_fields write_field write_fixed_bytes_field
    get_num_field number_of request_layout plain create_read_words_params validate_code_for_family
    family_of_device device_by_code write_n_bytes effective_layout
built = refl

abbrev sent_request : McRequest
sent_request = record {
  subheader = (0x54, 0x00);
  access_route = default_route;
  request_data_len = 10;
  monitoring_timer = 0x1000;
  request_data = request_data;
  serial_number = 2;
}

answered : IsAnsweredBy flaky default_config client request_data 1 1 0 answer
unfolding framed new try_with_request_data next_serial bumped
answered = record {
  mc_payload = build_with_format sent_request mc4e;
  counter_after = 2;
  frames = refl;
  failures = 1;
  before = 0;
  failing = one_failure (build_with_format sent_request mc4e);
  answers = refl;
  enough = omega arith;
  answer_is_request = answer-IsRequest;
  is_response = refl;
  success = refl;
}

read_words_as-IsAnsweredBy_example :
    read_words_as plain [] (some specs) flaky default_config none client from_words_i32 at_d0 1 1 1
    ≡ record { outcome = ok (pos 393221 ∷ []); counter = answered.counter_after; state = 0 }
unfolding from_words_i32 to_words_i32 bytes_of_words flat unsigned
read_words_as-IsAnsweredBy_example =
    read_words_as-IsAnsweredBy plain plain-IsJson [] flaky default_config none client
      from_words_i32-IsCodec specs spec true at_d0 (pos 393221 ∷ []) request_data 1 1 0 answer refl
      refl built answered refl (omega arith) (omega arith)
