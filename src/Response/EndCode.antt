-- ===== src/Response/EndCode.antt =====
-- When a response carries an end code.
use melsec_mc.Prelude.{
  ◌-◌, ◌≤◌, ◌≡◌, refl, true, false, none, some, arith, length, take, drop, ◌==◌,
}
use melsec_mc.Error.{ok}
use melsec_mc.Bytes.{Bytes, IsBytes, le_at}
use melsec_mc.McFrame.{parse_frame}
use melsec_mc.McFrame.Detect.{starts_mc4e}
use melsec_mc.McFrame.Parse.{
  parsed, parsed_mc4e, parsed_subheader, header_mc4e, header_subheader, parse_frame-parsed,
}
use melsec_mc.Response.{McResponse, response_of, parse_mc_payload, is_success}
use melsec_mc.Response.Parse.{parse_mc_payload-response_of}

parse_frame-mc4e :
    (p : Bytes)
    → IsBytes p
    → starts_mc4e p ≡ true
    → 2 ≤ le_at p 11
    → parse_frame p ≡ ok (header_mc4e p)
unfolding parsed parsed_mc4e
parse_frame-mc4e p bytes m h = ground (arith, parse_frame-parsed p bytes)

parse_frame-subheader :
    (p : Bytes)
    → IsBytes p
    → starts_mc4e p ≡ false
    → 11 ≤ length p
    → 2 ≤ le_at p 7
    → parse_frame p ≡ ok (header_subheader p)
unfolding parsed parsed_subheader
parse_frame-subheader p bytes m long h = ground (arith, parse_frame-parsed p bytes)

-- An MC4E frame with a data length of at least 2 is a response with the serial number of bytes 2
-- and 3, the data after the 15-byte header, and the end code of bytes 13 and 14: it succeeds
-- exactly if that is 0.
pub parse_mc_payload-mc4e :
    (p : Bytes)
    → IsBytes p
    → starts_mc4e p ≡ true
    → 2 ≤ le_at p 11
    → (r : McResponse) × (parse_mc_payload p ≡ ok r)
      × (r.response_data ≡ take (le_at p 11 - 2) (drop 15 p))
      × (r.serial_number ≡ some (le_at p 2))
      × (r.end_code ≡ some (le_at p 13))
      × (is_success r ≡ (le_at p 13 == 0))
unfolding is_success
parse_mc_payload-mc4e p bytes m h = (
  response_of (header_mc4e p) (take (le_at p 11 - 2) (drop 15 p)),
  parse_mc_payload-response_of p (header_mc4e p) (parse_frame-mc4e p bytes m h),
  refl,
  refl,
  refl,
  refl,
)

-- Any other payload of at least 11 bytes with a data length of at least 2 at byte 7, as an MC3E
-- response with its subheader is, has no end code: it succeeds whatever its bytes 9 and 10 say.
pub parse_mc_payload-mc3e :
    (p : Bytes)
    → IsBytes p
    → starts_mc4e p ≡ false
    → 11 ≤ length p
    → 2 ≤ le_at p 7
    → (r : McResponse) × (parse_mc_payload p ≡ ok r)
      × (r.response_data ≡ take (le_at p 7 - 2) (drop 11 p))
      × (r.end_code ≡ none)
      × (is_success r ≡ true)
unfolding is_success
parse_mc_payload-mc3e p bytes m long h = (
  response_of (header_subheader p) (take (le_at p 7 - 2) (drop 11 p)),
  parse_mc_payload-response_of p (header_subheader p) (parse_frame-subheader p bytes m long h),
  refl,
  refl,
  refl,
)
