-- ===== src/Request/Tests.antt =====
-- Requests at which the theorems on request.rs apply.
use melsec_mc.Prelude.{ℕ, ◌+◌, ◌*◌, ◌%◌, ◌≤◌, ◌<◌, inl, [], ◌∷◌, ◌≡◌, ◌↔◌, refl, arith, length}
use melsec_mc.Error.{ok}
use melsec_mc.Bytes.{slice}
use melsec_mc.McDefine.{mc4e, mc3e, default_route}
use melsec_mc.McDefine.Route.{from_array, default_route-IsRoute}
use melsec_mc.McFrame.Parse.{parsed, parsed_mc4e, parse_frame-parsed}
use melsec_mc.Request.{McRequest, IsRequest, build_with_format, try_from_payload, data_slice}
use melsec_mc.Request.Build.{build_mc3e-IsBytes}
use melsec_mc.Request.Serial.{serial_after, serial_period}
use melsec_mc.Request.RoundTrip.{
  try_from_payload-build_mc4e, try_from_payload-build_mc3e, try_from_payload-build_mc3e_default,
}

-- A request to read, with the subheader `s` and four bytes of data.
abbrev request : ℕ → McRequest
request s = record {
  subheader = (s, 0x00);
  access_route = default_route;
  request_data_len = 6;
  monitoring_timer = 0x1000;
  request_data = 0x01 ∷ 0x04 ∷ 0x02 ∷ 0x00 ∷ [];
  serial_number = 2;
}

request-IsRequest : (s : ℕ) → s < 256 → IsRequest (request s)
request-IsRequest s h = record {
  subheader_bytes = omega arith;
  route = default_route-IsRoute;
  data_len = refl;
  data_fits = omega arith;
  timer_word = omega arith;
  data_bytes = omega arith;
  serial_word = omega arith;
}

serial_period_example :
    (1 ≤ serial_after 1 3)
    × (serial_after 1 3 ≤ 65535)
    × ((serial_after 1 3 ≡ serial_after 1 (3 + 65535)) ↔ (65535 % 65535 ≡ 0))
serial_period_example = serial_period 1 3 65535 (omega arith) (omega arith)

try_from_payload-build_mc4e_example :
    try_from_payload (build_with_format (request 0x54) mc4e)
    ≡ ok (record (request 0x54) { monitoring_timer = 0x1000 })
try_from_payload-build_mc4e_example =
    try_from_payload-build_mc4e (request 0x54) (request-IsRequest 0x54 (omega arith)) (inl refl)

try_from_payload-build_mc3e_example :
    try_from_payload (build_with_format (request 0x50) mc3e)
    ≡ ok (record (request 0x50) { serial_number = 0 })
try_from_payload-build_mc3e_example =
    try_from_payload-build_mc3e (request 0x50) (request-IsRequest 0x50 (omega arith)) (omega arith)
      (omega arith)

-- What is read back from the MC3E frame of a request with the default subheader.
abbrev misread : McRequest
misread = record {
  subheader = (0x54, 0x00);
  access_route = record {
    network_number = 0x00;
    pc_number = 0x06;
    io_number = 0x0000;
    station_number = 0x10;
  };
  request_data_len = 0x0401;
  monitoring_timer = 0x1000;
  request_data = [];
  serial_number = 0xFF00;
}

misread_lem : try_from_payload (build_with_format (request 0x54) mc3e) ≡ ok misread
unfolding try_from_payload parsed parsed_mc4e data_slice slice build_with_format from_array
misread_lem =
    rw
      (parse_frame-parsed (build_with_format (request 0x54) mc3e)
        (build_mc3e-IsBytes (request 0x54) (request-IsRequest 0x54 (omega arith))))
      refl

try_from_payload-build_mc3e_default_example :
    (length misread.request_data < 4) × (misread.serial_number ≡ 0 + 0xFF * 256)
try_from_payload-build_mc3e_default_example =
    try_from_payload-build_mc3e_default (request 0x54) (request-IsRequest 0x54 (omega arith)) refl
      (omega arith) misread misread_lem
