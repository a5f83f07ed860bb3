-- ===== src/Response.antt =====
-- src/response.rs: `parse_mc_payload` and `McResponse`.
pub mod Parse
pub mod EndCode
pub mod Answer
mod Tests
use melsec_mc.Prelude.{ℕ, Bool, true, Option, none, some, ◌==◌}
use melsec_mc.Error.{Result, ok, ◌>>=◌}
use melsec_mc.Bytes.{Bytes}
use melsec_mc.McDefine.{Array2, Array5}
use melsec_mc.McFrame.{FrameParseResult, parse_frame}
use melsec_mc.Request.{data_slice}

pub record McResponse : Type 0 where
  pub subheader : Array2
  pub access_route : Array5
  pub request_data_len : ℕ
  pub response_data : Bytes
  pub end_code : Option ℕ
  pub has_end_code : Bool
  pub serial_number : Option ℕ

-- The last lines of `parse_mc_payload`.
abbrev pub response_of : FrameParseResult → Bytes → McResponse
response_of pr d = record {
  subheader = pr.subheader;
  access_route = pr.access_route;
  request_data_len = pr.request_data_len;
  response_data = d;
  end_code = pr.end_code;
  has_end_code = pr.has_end_code;
  serial_number = pr.serial_number;
}

pub parse_mc_payload : Bytes → Result McResponse
parse_mc_payload payload = do
  pr ← parse_frame payload
  d ← data_slice payload pr
  ok (response_of pr d)

try_new : Bytes → Result McResponse
try_new payload = parse_mc_payload payload

success_code : Option ℕ → Bool
success_code (some code) = code == 0
success_code none = true

pub is_success : McResponse → Bool
unfolding success_code
is_success r = success_code r.end_code
