-- ===== src/Client.antt =====
-- src/mc_client.rs: `McClient` and its commands. A command is one exchange: build the request's
-- data, frame them, send them with retries, parse the response, check its end code, parse its
-- data. The transport is a function on its own state; a sleep is the number of its milliseconds.
pub mod Retry
pub mod Commands
pub mod Exchange
pub mod Typed
pub mod Framed
pub mod Plc
pub mod Bits
pub mod FromFile
pub mod WriteRead
pub mod Written
pub mod Tests
pub mod FileTests
mod BitsTests
mod PlcTests
use Prim.Native.String.{◌++◌ as str_append}
use melsec_mc.Prelude.{
  ℕ, zero, suc, ◌+◌, ◌*◌, ◌-◌, ◌^◌, min, Bool, true, false, Option, none, some, String, List, [],
  ◌∷◌, ◌++◌, str_eq, ◌==◌, ◌&&◌, ◌||◌, leb, length, if◌then◌else◌,
}
use mathlib.Core.Option.{get_or}
use melsec_mc.Error.{
  MelsecError, protocol, Result, ok, err, panic, fail, ◌>>=◌, ◌>>◌, unknown_transport_error,
  device_end_code, registry_not_set, command_not_found, echo_length_out_of_range,
  echo_invalid_characters,
}
use melsec_mc.Bytes.{Bytes, to_le_bytes}
use melsec_mc.McDefine.{McFrameFormat, default_format, Protocol, tcp}
use melsec_mc.Request.{McRequest, new, with_access_route, try_with_request_data, build_with_format}
use melsec_mc.Response.{McResponse, parse_mc_payload}
use melsec_mc.Config.{Config}
use melsec_mc.Command as Command
use melsec_mc.Command.{Command}
use melsec_mc.PlcSeries.{PlcSeries, r}
use melsec_mc.Endpoint as Endpoint
use melsec_mc.Endpoint.{ConnectionTarget}
use melsec_mc.ErrorCodes.{Global, code_name, code_description}
use melsec_mc.Device.{Device}
use melsec_mc.Json.{Json}
use melsec_mc.Registry.{CommandSpec}
use melsec_mc.Registry.Fields.{is_hex_digit}
use melsec_mc.Registry.Blocks.{build_request}
use melsec_mc.Registry.Response.{parse_response}
use melsec_mc.Registry.Params.{
  Located, create_read_words_params, create_read_bits_params, create_write_words_params,
  create_write_bits_params,
}

abbrev default_monitoring_timer : ℕ
default_monitoring_timer = 5

pub record McClient : Type 0 where
  pub target : ConnectionTarget
  pub plc_series : PlcSeries
  pub protocol : Protocol
  pub monitoring_timer : ℕ
  pub client_name : String
  pub mc_format : McFrameFormat

-- `McClient::new()`, but for the registries that it sets; `decimal` prints a port.
new_client : (ℕ → String) → McClient
new_client decimal = record {
  target = Endpoint.new decimal;
  plc_series = r;
  protocol = tcp;
  monitoring_timer = default_monitoring_timer;
  client_name = "client";
  mc_format = default_format;
}

with_mc_format : McClient → McFrameFormat → McClient
with_mc_format client fmt = record client { mc_format = fmt }

with_target : McClient → ConnectionTarget → McClient
with_target client target = record client { target = target }

with_plc_series : McClient → PlcSeries → McClient
with_plc_series client series = record client { plc_series = series }

with_protocol : McClient → Protocol → McClient
with_protocol client p = record client { protocol = p }

pub with_monitoring_timer : McClient → ℕ → McClient
with_monitoring_timer client timer = record client { monitoring_timer = timer }

with_client_name : McClient → String → McClient
with_client_name client name = record client { client_name = name }

-- The name and the description in the error's text.
extra_text : String → String → String
extra_text name desc =
    if str_eq name ""
    then (if str_eq desc "" then "" else str_append " (" (str_append desc ")"))
    else (if str_eq desc ""
        then str_append " (" (str_append name ")")
        else str_append " (" (str_append name (str_append ": " (str_append desc ")"))))

end_code_error : Global → Option ℕ → Result (Unit {0})
end_code_error codes none = ok tt
end_code_error codes (some code) =
    if code == 0
    then ok tt
    else fail (
        device_end_code code
          (extra_text (get_or (code_name codes code) "") (get_or (code_description codes code) "")))

pub check_response_end_code : Global → McResponse → Result (Unit {0})
check_response_end_code codes response =
    if response.has_end_code then end_code_error codes response.end_code else ok tt

-- The sleep after the `attempt`-th attempt.
pub backoff : ℕ → ℕ → ℕ
backoff base_backoff_ms attempt = min (base_backoff_ms * 2 ^ min (attempt - 1) 63) (2 ^ 64 - 1)

-- What a call returns, the transport's state after it, and the sleeps on the way.
pub record Sent (S : Type 0) : Type 0 where
  pub result : Result Bytes
  pub state : S
  pub sleeps : List ℕ

abbrev slept : {S : Type 0} → ℕ → Sent S → Sent S
slept ms sent = record sent { sleeps = ms ∷ sent.sleeps }

-- An exchange's response ends the loop; its error goes to the rest of the loop's body.
abbrev attempted : {S : Type 0} → (S → MelsecError → Sent S) → Result Bytes × S → Sent S
attempted next (ok buf, s) = record { result = ok buf; state = s; sleeps = [] }
attempted next (panic, s) = record { result = panic; state = s; sleeps = [] }
attempted next (err e, s) = next s e

module _ {S : Type 0} (exchange : Bytes → S → Result Bytes × S) (config : Config) where
  -- The loop of `send_and_recv_with_retry` at `attempt`, with `left` attempts left.
  pub retry : ℕ → ℕ → Bytes → S → Option MelsecError → Sent S
  retry zero attempt payload s last_err = record {
    result = err (get_or last_err (protocol unknown_transport_error));
    state = s;
    sleeps = [];
  }
  retry (suc left) attempt payload s last_err =
      attempted
        (λ s' e. elim left [
          | zero ↦ record { result = err e; state = s'; sleeps = [] }
          | suc _ ↦
              slept (backoff config.melsec_tcp_retry_backoff_ms attempt)
                (retry left (attempt + 1) payload s' (some e))
        ])
        (exchange payload s)

  pub send_and_recv_with_retry : Bytes → S → Sent S
  send_and_recv_with_retry payload s = retry config.melsec_tcp_retry_attempts 1 payload s none

all_hex : Bytes → Bool
all_hex [] = true
all_hex (b ∷ bs) = is_hex_digit b && all_hex bs

-- The checks and the request data of `echo`.
echo_data : Bytes → Result Bytes
echo_data payload =
    if leb 1 (length payload) && leb (length payload) 960
    then (if all_hex payload
        then ok (to_le_bytes 0x0619 ++ (to_le_bytes 0x0000 ++ payload))
        else fail echo_invalid_characters)
    else fail (echo_length_out_of_range (length payload))

-- What a command returns, with the serial counter and the transport's state after it.
pub record Done (S A : Type 0) : Type 0 where
  pub outcome : Result A
  pub counter : ℕ
  pub state : S

-- `McRequest::new().with_access_route(..).try_with_request_data(..)?.build_with_format(..)`
pub framed : McClient → Bytes → ℕ → Result Bytes × ℕ
framed client request_data counter =
    let (req, counter') = new counter in
    (
      try_with_request_data (with_access_route req client.target.access_route) request_data
          >>= λ mc_req. ok (build_with_format mc_req client.mc_format),
      counter',
    )

-- `McResponse::try_new(&buf)?` and the end-code check, and the response's data.
pub response_data : Global → Bytes → Result Bytes
response_data codes buf = do
  response ← parse_mc_payload buf
  _success ← check_response_end_code codes response
  ok response.response_data

module _ {S : Type 0} (exchange : Bytes → S → Result Bytes × S) (config : Config) (codes : Global)
    (client : McClient) where
  -- Sending framed data and taking the response's.
  exchange_framed : {A : Type 0} → (Bytes → Result A) → Result Bytes × ℕ → S → Done S A
  exchange_framed parse (err e, counter) s = record {
    outcome = err e;
    counter = counter;
    state = s;
  }
  exchange_framed parse (panic, counter) s = record {
    outcome = panic;
    counter = counter;
    state = s;
  }
  exchange_framed parse (ok mc_payload, counter) s =
      let sent = send_and_recv_with_retry exchange config mc_payload s in
      record {
        outcome = sent.result >>= λ buf. response_data codes buf >>= parse;
        counter = counter;
        state = sent.state;
      }

  -- The lines that the commands share, from the request's data on.
  pub perform : {A : Type 0} → (Bytes → Result A) → Result Bytes → ℕ → S → Done S A
  perform parse (err e) counter s = record { outcome = err e; counter = counter; state = s }
  perform parse panic counter s = record { outcome = panic; counter = counter; state = s }
  perform parse (ok request_data) counter s =
      exchange_framed parse (framed client request_data counter) s

  -- `echo`; the bytes that it returns are made a string, or an error if they are not UTF-8.
  pub echo : (Bytes → Result Bytes) → Bytes → ℕ → S → Done S Bytes
  echo from_utf8 payload counter s = perform from_utf8 (echo_data payload) counter s
