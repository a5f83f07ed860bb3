-- ===== src/Client/Plc.antt =====
-- A PLC at the other end: its memory of words, and the requests that read and write it.
use melsec_mc.Prelude.{
  ℕ, ◌+◌, ◌%◌, ◌^◌, ◌≤◌, ◌<◌, ◌≡◌, refl, ◌∙◌, ap, arith, true, List, [], ◌∷◌, ◌++◌, length, All,
  All-append,
}
use melsec_mc.Error.{Result, ok}
use melsec_mc.Bytes.{Bytes, IsByte, IsBytes, IsU16, to_le_bytes}
use melsec_mc.Bytes.Words.{to_le_bytes-IsBytes}
use melsec_mc.McDefine.{mc4e}
use melsec_mc.PlcSeries.{PlcSeries, q, r}
use melsec_mc.Request.{McRequest, IsRequest, build_with_format}
use melsec_mc.Registry.Numbers.{low_bytes-IsBytes}
use melsec_mc.Registry.{low_bytes}
use melsec_mc.Registry.FixedFields.{addr_width, code_width}
use melsec_mc.Registry.Response.Words.{bytes_of_words}
use melsec_mc.Registry.DeviceText.{read_request}
use melsec_mc.McDefine.{IsRoute}
use melsec_mc.Config.{Config}
use melsec_mc.Request.{new}
use melsec_mc.Client.{McClient}
use melsec_mc.Client.Retry.{none_failed}
use melsec_mc.Client.Exchange.{IsAnsweredBy}
use melsec_mc.Client.Framed.{request_with, request_with-IsRequest, framed-mc4e}

-- What the PLC does with the data of a request, and with its memory of words, by device code and
-- address; `reply` is its response to a request, with end code 0.
pub record IsPlc {S : Type 0} (exchange : Bytes → S → Result Bytes × S) (series : PlcSeries)
    (read_sub write_sub : ℕ) : Type 0 where
  pub execute : Bytes → S → Bytes × S
  pub reply : McRequest → Bytes → McRequest
  pub load : S → ℕ → ℕ → ℕ → List ℕ
  pub store : S → ℕ → ℕ → List ℕ → S
  pub answers :
      (r : McRequest) (s : S)
      → IsRequest r
      → r.subheader.0 ≡ 0x54
      → exchange (build_with_format r mc4e) s ≡ (
        ok (build_with_format (reply r (execute r.request_data s).0) mc4e),
        (execute r.request_data s).1,
      )
  pub reply-IsRequest :
      (r : McRequest) (d : Bytes)
      → IsRequest r
      → IsBytes d
      → length d ≤ 65533
      → IsRequest (reply r d)
  pub reply_subheader : (r : McRequest) (d : Bytes) → (reply r d).subheader.0 ≡ 0xD4
  pub reply_end_code : (r : McRequest) (d : Bytes) → (reply r d).monitoring_timer ≡ 0
  pub reply_data : (r : McRequest) (d : Bytes) → (reply r d).request_data ≡ d
  pub execute_write :
      (s : S) (code addr : ℕ) (ws : List ℕ)
      → All IsU16 ws
      → execute
          (read_request 0x1401 write_sub series addr code (length ws) ++ bytes_of_words true ws)
          s
        ≡ ([], store s code addr ws)
  pub execute_read :
      (s : S) (code addr count : ℕ)
      → count < 2 ^ 16
      → execute (read_request 0x0401 read_sub series addr code count) s
        ≡ (bytes_of_words true (load s code addr count), s)
  pub load-store :
      (s : S) (code addr : ℕ) (ws : List ℕ)
      → All IsU16 ws
      → load (store s code addr ws) code addr (length ws) ≡ ws

pub bytes_of_words-IsBytes : (ws : List ℕ) → IsBytes (bytes_of_words true ws)
unfolding bytes_of_words
bytes_of_words-IsBytes [] = tt
bytes_of_words-IsBytes (w ∷ ws) =
    All-append IsByte (to_le_bytes w) (bytes_of_words true ws) (to_le_bytes-IsBytes w)
      (bytes_of_words-IsBytes ws)

pub read_request-IsBytes :
    (command sub : ℕ) (series : PlcSeries) (addr code count : ℕ)
    → IsBytes (read_request command sub series addr code count)
read_request-IsBytes command sub series addr code count =
    All-append IsByte (low_bytes 2 command) _ (low_bytes-IsBytes 2 command) (
      All-append IsByte (low_bytes 2 sub) _ (low_bytes-IsBytes 2 sub) (
        All-append IsByte (low_bytes (addr_width series) addr) _
          (low_bytes-IsBytes (addr_width series) addr)
          (All-append IsByte (low_bytes (code_width series) code) _
            (low_bytes-IsBytes (code_width series) code) (low_bytes-IsBytes 2 count))))

pub length-read_request :
    (command sub : ℕ) (series : PlcSeries) (addr code count : ℕ)
    → length (read_request command sub series addr code count) ≤ 12
unfolding low_bytes
length-read_request command sub q addr code count = omega arith
length-read_request command sub r addr code count = omega arith

-- A client that frames its requests in the MC4E format, and makes at least one attempt.
pub record IsReady (client : McClient) (config : Config) : Type 0 where
  pub format : client.mc_format ≡ mc4e
  pub route : IsRoute client.target.access_route
  pub attempts : 0 < config.melsec_tcp_retry_attempts

module _ {S : Type 0} (exchange : Bytes → S → Result Bytes × S) (config : Config)
    (client : McClient) (read_sub write_sub : ℕ)
    (plc : IsPlc exchange client.plc_series read_sub write_sub)
    (ready : IsReady client config) where
  -- Request data that the PLC executes are answered.
  unfoldable pub answered_by_plc :
      (d out : Bytes) (counter : ℕ) (s u : S)
      → 1 ≤ counter
      → counter ≤ 65535
      → IsBytes d
      → length d ≤ 65533
      → IsBytes out
      → length out ≤ 65533
      → plc.execute d s ≡ (out, u)
      → IsAnsweredBy exchange config client d counter s u
          (plc.reply (request_with client counter d) out)
  unfolding new
  answered_by_plc d out counter s u h k bytes fits out_bytes out_fits e =
      let req = request_with client counter d in
      let is_request = request_with-IsRequest client counter d ready.route h k bytes fits in
      record {
        mc_payload = build_with_format req mc4e;
        counter_after = counter % 65535 + 1;
        frames = framed-mc4e client counter d ready.format h k fits;
        failures = 0;
        before = s;
        failing = none_failed s;
        answers =
            plc.answers req s is_request refl
            ∙ ap (λ (x : Bytes × S). (ok (build_with_format (plc.reply req x.0) mc4e), x.1)) e;
        enough = ready.attempts;
        answer_is_request = plc.reply-IsRequest req out is_request out_bytes out_fits;
        is_response = plc.reply_subheader req out;
        success = plc.reply_end_code req out;
      }
