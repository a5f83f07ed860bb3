-- ===== src/Client/FileTests.antt =====
-- An exchange at which the theorem from the definitions' file on applies.
use Prim.Native.Char.{Char}
use Prim.Native.String.{String, [], ◌∷◌}
use melsec_mc.Prelude.{ℕ, Option, ◌≡◌, refl, none, some, [], ◌∷◌, arith}
use melsec_mc.Error.{Result, ok}
use melsec_mc.Bytes.{Bytes}
use melsec_mc.McDefine.Route.{default_route-IsRoute}
use melsec_mc.McDefine.{mc4e, default_route}
use melsec_mc.Request.{
  McRequest, IsRequest, build_with_format, new, next_serial, bumped, try_with_request_data,
}
use melsec_mc.Config.{default_config}
use melsec_mc.PlcSeries.{q}
use melsec_mc.Command.{Command, as_str}
use melsec_mc.Text.{trim, is_empty, is_ascii_digit, is_ascii_alphabetic, to_uppercase, to_digit}
use melsec_mc.Device.{Device, device_by_symbol, word, decimal}
use melsec_mc.Device.Address.Parsed.{Denotes}
use melsec_mc.Json.Plain.{plain, plain-IsJson}
use melsec_mc.Registry.{CommandSpec, single, low_bytes, resolved, effective_sub}
use melsec_mc.Registry.Params.{located}
use melsec_mc.Registry.WriteRequest.{write_words_fields}
use melsec_mc.Registry.File.{sub_spec, sub_value, u16_of, insert_spec}
use melsec_mc.Registry.FileTests.{
  integers, same_order, read_words_raw, read_words_raw-IsReadWords, read_words_spec,
  read_words_only, read_words_accepted,
}
use melsec_mc.Registry.Response.{number_values}
use melsec_mc.Registry.Response.Words.{bytes_of_words}
use melsec_mc.Client.{framed}
use melsec_mc.Client.Commands.{read_words, write_words}
use melsec_mc.Client.Retry.{none_failed}
use melsec_mc.Client.Written.{write_request, write_words-IsAnsweredBy}
use melsec_mc.Client.Exchange.{IsAnsweredBy}
use melsec_mc.Client.FromFile.{request_of, read_words-from_file}
use melsec_mc.Client.Tests.{client, answer, answer-IsRequest, flaky, one_failure}

abbrev pub register_d : Device
register_d = record {
  category = word;
  base = decimal;
  device_code = 0xA8;
  description = "data register";
  supported_series = q ∷ [];
}

abbrev pub names : ℕ → String
names code = "D"

abbrev pub no_upper : Char → String
no_upper c = ""

pub d0 : Denotes no_upper names (register_d ∷ []) "d0" register_d 0
unfolding trim is_empty is_ascii_digit is_ascii_alphabetic to_uppercase device_by_symbol to_digit
d0 = record {
  symbol = "d";
  first = "0";
  rest = "";
  trimmed = refl;
  letters = (refl, tt);
  full = refl;
  digit = refl;
  found = refl;
  spelt = refl;
  in_range = omega arith;
}

abbrev sent : McRequest
sent = record {
  subheader = (0x54, 0x00);
  access_route = default_route;
  request_data_len = 12;
  monitoring_timer = 0x1000;
  request_data = 1 ∷ 4 ∷ 0 ∷ 0 ∷ 0 ∷ 0 ∷ 0 ∷ 0xA8 ∷ 2 ∷ 0 ∷ [];
  serial_number = 2;
}

answered :
    IsAnsweredBy flaky default_config client
      (request_of plain plain-IsJson integers same_order no_upper names
        (register_d ∷ [])
        read_words_raw
        (some (single 0))
        client
        0
        register_d
        2)
      1
      1
      0
      answer
unfolding framed new try_with_request_data next_serial bumped low_bytes effective_sub resolved
answered = record {
  mc_payload = build_with_format sent mc4e;
  counter_after = 2;
  frames = refl;
  failures = 1;
  before = 0;
  failing = one_failure (build_with_format sent mc4e);
  answers = refl;
  enough = omega arith;
  answer_is_request = answer-IsRequest;
  is_response = refl;
  success = refl;
}

read_words-from_file_example :
    (v : plain.Value) × (read_words plain
        (register_d ∷ [])
        (some read_words_only)
        flaky
        default_config
        none
        client
        (located no_upper names (register_d ∷ []) "d0")
        2
        1
        1
      ≡ record { outcome = ok v; counter = answered.counter_after; state = 0 })
    × (plain.get v "data_blocks"
        ≡ some (plain.array (plain.array (number_values plain (5 ∷ 6 ∷ [])) ∷ [])))
unfolding sub_spec sub_value u16_of as_str
read_words-from_file_example =
    read_words-from_file plain plain-IsJson integers same_order no_upper names (register_d ∷ [])
      flaky default_config none client (read_words_raw ∷ []) read_words_only read_words_raw
      (some (single 0)) "d0" register_d 0 (5 ∷ 6 ∷ []) 1 1 0 answer read_words_accepted refl
      read_words_raw-IsReadWords refl d0 (omega arith) answered (unfold bytes_of_words in refl)
      (omega arith) (omega arith)

abbrev pub write_words_spec : CommandSpec
write_words_spec = record read_words_spec {
  id = Command.write_words;
  command_code = 0x1401;
  request_fields = write_words_fields;
  response_format = [];
  response_entries = [];
}

abbrev write_words_only : Command → Option CommandSpec
write_words_only = insert_spec (λ id. none) Command.write_words write_words_spec

-- The acknowledgement of a write, without data.
abbrev acknowledgement : McRequest
acknowledgement = record answer { request_data_len = 2; request_data = [] }

acknowledgement-IsRequest : IsRequest acknowledgement
acknowledgement-IsRequest = record {
  subheader_bytes = omega arith;
  route = default_route-IsRoute;
  data_len = refl;
  data_fits = omega arith;
  timer_word = omega arith;
  data_bytes = tt;
  serial_word = omega arith;
}

abbrev acknowledging : Bytes → ℕ → Result Bytes × ℕ
acknowledging payload s = (ok (build_with_format acknowledgement mc4e), s)

abbrev written : McRequest
written = record sent {
  request_data_len = 16;
  request_data = 1 ∷ 0x14 ∷ 0 ∷ 0 ∷ 0 ∷ 0 ∷ 0 ∷ 0xA8 ∷ 2 ∷ 0 ∷ 5 ∷ 0 ∷ 6 ∷ 0 ∷ [];
}

acknowledged :
    IsAnsweredBy acknowledging default_config client
      (write_request no_upper names
        (register_d ∷ [])
        plain
        plain-IsJson
        acknowledging
        default_config
        none
        client
        write_words_spec
        register_d
        0
        (5 ∷ 6 ∷ []))
      1
      0
      0
      acknowledgement
unfolding framed new try_with_request_data next_serial bumped low_bytes effective_sub resolved
    bytes_of_words
acknowledged = record {
  mc_payload = build_with_format written mc4e;
  counter_after = 2;
  frames = refl;
  failures = 0;
  before = 0;
  failing = none_failed 0;
  answers = refl;
  enough = omega arith;
  answer_is_request = acknowledgement-IsRequest;
  is_response = refl;
  success = refl;
}

write_words-IsAnsweredBy_example :
    write_words plain
      (register_d ∷ [])
      (some write_words_only)
      acknowledging
      default_config
      none
      client
      (located no_upper names (register_d ∷ []) "d0")
      (5 ∷ 6 ∷ [])
      1
      0
    ≡ record {
      outcome = ok (plain.object plain.empty);
      counter = acknowledged.counter_after;
      state = 0;
    }
write_words-IsAnsweredBy_example =
    write_words-IsAnsweredBy no_upper names (register_d ∷ []) plain plain-IsJson acknowledging
      default_config none client write_words_only write_words_spec "d0" register_d 0 (5 ∷ 6 ∷ []) 1
      0 0 acknowledgement (unfold insert_spec as_str in refl) refl refl refl refl d0 (omega arith)
      (omega arith) (omega arith) acknowledged
