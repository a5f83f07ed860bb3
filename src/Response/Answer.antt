-- ===== src/Response/Answer.antt =====
-- What the client makes of a built MC4E response.
use melsec_mc.Prelude.{◌≡◌, some, inr}
use melsec_mc.Error.{ok}
use melsec_mc.McDefine.{mc4e}
use melsec_mc.Request.{McRequest, IsRequest, build_with_format}
use melsec_mc.Request.RoundTrip.{mc4e_header, parse_frame-build_mc4e, data_slice-build_mc4e}
use melsec_mc.Response.{response_of, parse_mc_payload}

pub parse_mc_payload-build_mc4e :
    (a : McRequest)
    → IsRequest a
    → a.subheader.0 ≡ 0xD4
    → parse_mc_payload (build_with_format a mc4e) ≡ ok (response_of (mc4e_header a) a.request_data)
unfolding parse_mc_payload
parse_mc_payload-build_mc4e a h first =
    rw (parse_frame-build_mc4e a h (inr first), data_slice-build_mc4e a h)

pub end_code-build_mc4e :
    (a : McRequest)
    → a.monitoring_timer ≡ 0
    → (response_of (mc4e_header a) a.request_data).end_code ≡ some 0
unfolding build_with_format
end_code-build_mc4e a e = rw e
