-- ===== src/Client/Framed.antt =====
-- The MC4E frame that a client sends for given request data.
use melsec_mc.Prelude.{ℕ, ◌+◌, ◌%◌, ◌≤◌, ◌≡◌, refl, arith, length, le→leb}
use melsec_mc.Error.{ok}
use melsec_mc.Bytes.{Bytes, IsBytes}
use melsec_mc.McDefine.{mc4e, IsRoute}
use melsec_mc.Request.{McRequest, IsRequest, new, with_access_route, build_with_format}
use melsec_mc.Request.Data.{new-IsHeader, try_with_request_data_lem}
use melsec_mc.Request.Serial.{next_serial-range}
use melsec_mc.Client.{McClient, framed}

-- The request that a client frames.
abbrev pub request_with : McClient → ℕ → Bytes → McRequest
request_with client counter d =
    record (with_access_route (new counter).0 client.target.access_route) {
      request_data_len = length d + 2;
      request_data = d;
    }

pub request_with-IsRequest :
    (client : McClient) (counter : ℕ) (d : Bytes)
    → IsRoute client.target.access_route
    → 1 ≤ counter
    → counter ≤ 65535
    → IsBytes d
    → length d ≤ 65533
    → IsRequest (request_with client counter d)
unfolding new
request_with-IsRequest client counter d route h k bytes fits =
    let header = new-IsHeader counter h k in
    record {
      subheader_bytes = header.subheader_bytes;
      route = route;
      data_len = refl;
      data_fits = fits;
      timer_word = header.timer_word;
      data_bytes = bytes;
      serial_word = header.serial_word;
    }

pub framed-mc4e :
    (client : McClient) (counter : ℕ) (d : Bytes)
    → client.mc_format ≡ mc4e
    → 1 ≤ counter
    → counter ≤ 65535
    → length d ≤ 65533
    → framed client d counter
      ≡ (ok (build_with_format (request_with client counter d) mc4e), counter % 65535 + 1)
unfolding framed new
framed-mc4e client counter d format h k fits =
    rw
      (
        format,
        try_with_request_data_lem (with_access_route (new counter).0 client.target.access_route) d
            (omega arith),
        le→leb (length d) 65533 fits,
        (next_serial-range counter h k).1,
      )
      refl
