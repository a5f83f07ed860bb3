-- ===== src/Client/Exchange.antt =====
-- A command's exchange with a device that answers in the MC4E format.
use melsec_mc.Prelude.{
  ℕ, ◌^◌, ◌<◌, ◌≡◌, refl, sym, ◌∙◌, ap, Bool, Option, some, List, [], ◌∷◌, append-nil, length, All,
}
use melsec_mc.Error.{Result, ok, ◌>>=◌}
use melsec_mc.Bytes.{Bytes, IsU16}
use melsec_mc.McDefine.{mc4e}
use melsec_mc.Request.{McRequest, IsRequest, build_with_format}
use melsec_mc.Request.RoundTrip.{mc4e_header}
use melsec_mc.Response.{response_of}
use melsec_mc.Response.Answer.{parse_mc_payload-build_mc4e, end_code-build_mc4e}
use melsec_mc.Config.{Config}
use melsec_mc.Command.{Command}
use melsec_mc.ErrorCodes.{Global}
use melsec_mc.Device.{Device}
use melsec_mc.Json.{Json, IsJson}
use melsec_mc.Registry.{CommandSpec, block_words}
use melsec_mc.Registry.Blocks.{build_request}
use melsec_mc.Registry.Params.{Located, create_read_words_params}
use melsec_mc.Registry.Response.{number_values, parse_response}
use melsec_mc.Registry.Response.Words.{bytes_of_words}
use melsec_mc.Registry.Response.ReadBack.{parse_response-words}
use melsec_mc.Client.{
  McClient, framed, response_data, check_response_end_code, end_code_error, exchange_framed,
  perform,
}
use melsec_mc.Client.Commands.{spec_of, run_spec, read_words}
use melsec_mc.Client.Retry.{Failing, retry_backoffs}

check_success :
    (codes : Global) (a : McRequest)
    → a.monitoring_timer ≡ 0
    → check_response_end_code codes (response_of (mc4e_header a) a.request_data) ≡ ok tt
unfolding check_response_end_code
check_success codes a success =
    ap (end_code_error codes) (end_code-build_mc4e a success) ∙ (unfold end_code_error in refl)

-- A successful response's data are its request data.
response_data-build_mc4e :
    (codes : Global) (a : McRequest)
    → IsRequest a
    → a.subheader.0 ≡ 0xD4
    → a.monitoring_timer ≡ 0
    → response_data codes (build_with_format a mc4e) ≡ ok a.request_data
unfolding response_data
response_data-build_mc4e codes a h first success =
    rw (parse_mc_payload-build_mc4e a h first, check_success codes a success)

module _ {S : Type 0} (exchange : Bytes → S → Result Bytes × S) (config : Config) (codes : Global)
    (client : McClient) where
  pub perform-framed :
      {A : Type 0} (parse : Bytes → Result A) (request_data mc_payload : Bytes)
      (counter counter' n : ℕ) (s t u : S) (a : McRequest)
      → framed client request_data counter ≡ (ok mc_payload, counter')
      → Failing exchange mc_payload n s t
      → exchange mc_payload t ≡ (ok (build_with_format a mc4e), u)
      → n < config.melsec_tcp_retry_attempts
      → IsRequest a
      → a.subheader.0 ≡ 0xD4
      → a.monitoring_timer ≡ 0
      → perform exchange config codes client parse (ok request_data) counter s
        ≡ record { outcome = parse a.request_data; counter = counter'; state = u }
  unfolding perform exchange_framed
  perform-framed parse request_data mc_payload counter counter' n s t u a f failing e lt h first
        success =
      rw (
        f,
        exchange_framed,
        retry_backoffs exchange config mc_payload n s t u (build_with_format a mc4e) failing e lt,
        response_data-build_mc4e codes a h first success,
      )

-- The transport's answer `a` to request data that can be framed, after fewer failures in a row
-- than there are attempts: an MC4E response with end code 0.
pub record IsAnsweredBy {S : Type 0} (exchange : Bytes → S → Result Bytes × S) (config : Config)
    (client : McClient) (request_data : Bytes) (counter : ℕ) (s u : S) (a : McRequest)
    : Type 0 where
  pub mc_payload : Bytes
  pub counter_after : ℕ
  pub frames : framed client request_data counter ≡ (ok mc_payload, counter_after)
  pub failures : ℕ
  pub before : S
  pub failing : Failing exchange mc_payload failures s before
  pub answers : exchange mc_payload before ≡ (ok (build_with_format a mc4e), u)
  pub enough : failures < config.melsec_tcp_retry_attempts
  pub answer_is_request : IsRequest a
  pub is_response : a.subheader.0 ≡ 0xD4
  pub success : a.monitoring_timer ≡ 0

module _ (j : Json) (laws : IsJson j) (devices : List Device) {S : Type 0}
    (exchange : Bytes → S → Result Bytes × S) (config : Config) (codes : Global)
    (client : McClient) where
  -- A read of words returns the words of the device. Over JSON values with their documented laws:
  -- the command's specification has one block of words under "data_blocks" in its response; the
  -- request for as many words, fewer than 65536, can be built; and after fewer failures than
  -- there are attempts the transport gives an MC4E response with end code 0 whose data are the
  -- words. Then the result has these words as its one block under "data_blocks", with the serial
  -- counter and the transport's state after the exchange.
  pub read_words-IsAnsweredBy :
      (specs : Command → Option CommandSpec) (spec : CommandSpec) (le : Bool) (at : Located)
      (ws : List ℕ) (request_data : Bytes) (counter : ℕ) (s u : S) (a : McRequest)
      → specs Command.read_words ≡ some spec
      → spec.response_entries ≡ block_words "data_blocks" le ∷ []
      → build_request j devices spec
          (create_read_words_params j at (length ws))
          (some client.plc_series)
        ≡ ok request_data
      → (answer : IsAnsweredBy exchange config client request_data counter s u a)
      → a.request_data ≡ bytes_of_words le ws
      → All IsU16 ws
      → length ws < 2 ^ 16
      → (v : j.Value) × (read_words j devices
            (some specs)
            exchange
            config
            codes
            client
            at
            (length ws)
            counter
            s
          ≡ record { outcome = ok v; counter = answer.counter_after; state = u })
        × (j.get v "data_blocks" ≡ some (j.array (j.array (number_values j ws) ∷ [])))
  unfolding read_words run_spec spec_of
  read_words-IsAnsweredBy specs spec le at ws request_data counter s u a found entries built answer
        same h small =
      let params = create_read_words_params j at (length ws) in
      let (v, parses, block) =
        parse_response-words j laws devices spec le at ws [] entries h small in
      (
        v,
        rw (
          found,
          run_spec,
          built,
          perform-framed exchange config codes client
              (λ buf. parse_response j devices spec params buf >>= ok) request_data
              answer.mc_payload counter answer.counter_after answer.failures s answer.before u a
              answer.frames answer.failing answer.answers answer.enough answer.answer_is_request
              answer.is_response answer.success,
          same,
          sym (append-nil (bytes_of_words le ws)),
          parses,
        ),
        block,
      )
