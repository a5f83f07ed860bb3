-- ===== src/Request/RoundTrip.antt =====
-- `try_from_payload` on the frames that `build_with_format` makes.
use melsec_mc.Prelude.{
  ◌+◌, ◌-◌, ◌*◌, ◌≤◌, ◌<◌, ◌≡◌, ◌≢◌, ◌⊎◌, min, some, arith, length, ◌∙◌, drop, take-length_le,
  length-take, length-drop,
}
use mathlib.Core.Option.{get_or}
use melsec_mc.Error.{ok, bind-eq-ok}
use melsec_mc.Bytes.{Bytes, slice}
use melsec_mc.McDefine.{mc4e, mc3e}
use melsec_mc.McDefine.Route.{to_array, from_array-to_array}
use melsec_mc.McFrame.{FrameParseResult, parse_frame}
use melsec_mc.McFrame.Parse.{
  parsed, parsed_mc4e, parsed_subheader, header_mc4e, header_subheader, parse_frame-parsed,
}
use melsec_mc.Request.{McRequest, IsRequest, build_with_format, try_from_payload, data_slice}
use melsec_mc.Request.Build.{build_mc4e-IsBytes, build_mc3e-IsBytes, length-build_mc3e}

-- The header that `parse_frame` reads from a built MC4E frame.
abbrev pub mc4e_header : McRequest → FrameParseResult
mc4e_header r = header_mc4e (build_with_format r mc4e)

abbrev mc3e_header : McRequest → FrameParseResult
mc3e_header r = header_subheader (build_with_format r mc3e)

pub parse_frame-build_mc4e :
    (r : McRequest)
    → IsRequest r
    → (r.subheader.0 ≡ 0x54) ⊎ (r.subheader.0 ≡ 0xD4)
    → parse_frame (build_with_format r mc4e) ≡ ok (mc4e_header r)
unfolding parsed parsed_mc4e build_with_format
parse_frame-build_mc4e r h first =
    parse_frame-parsed (build_with_format r mc4e) (build_mc4e-IsBytes r h) ∙ ground arith

parse_frame-build_mc3e :
    (r : McRequest)
    → IsRequest r
    → r.subheader.0 ≢ 0x54
    → r.subheader.0 ≢ 0xD4
    → parse_frame (build_with_format r mc3e) ≡ ok (mc3e_header r)
unfolding parsed parsed_subheader build_with_format
parse_frame-build_mc3e r h n54 nD4 =
    parse_frame-parsed (build_with_format r mc3e) (build_mc3e-IsBytes r h) ∙ ground arith

pub data_slice-build_mc4e :
    (r : McRequest)
    → IsRequest r
    → data_slice (build_with_format r mc4e) (mc4e_header r) ≡ ok r.request_data
unfolding data_slice slice build_with_format
data_slice-build_mc4e r h = ground (arith, take-length_le (length r.request_data) r.request_data)

data_slice-build_mc3e :
    (r : McRequest)
    → IsRequest r
    → data_slice (build_with_format r mc3e) (mc3e_header r) ≡ ok r.request_data
unfolding data_slice slice build_with_format
data_slice-build_mc3e r h = ground (arith, take-length_le (length r.request_data) r.request_data)

-- Parsing the MC4E frame of a valid request, with the subheader of a request or a response, gives
-- the request back, but for the monitoring timer: those bytes are read as an end code, and the
-- timer is 0x1000.
pub try_from_payload-build_mc4e :
    (r : McRequest)
    → IsRequest r
    → (r.subheader.0 ≡ 0x54) ⊎ (r.subheader.0 ≡ 0xD4)
    → try_from_payload (build_with_format r mc4e) ≡ ok (record r { monitoring_timer = 0x1000 })
unfolding try_from_payload
try_from_payload-build_mc4e r h first =
    rw (parse_frame-build_mc4e r h first, data_slice-build_mc4e r h)
      (unfold build_with_format to_array in
        ground (arith, from_array-to_array r.access_route h.route))

-- Parsing the MC3E frame of a valid request, with a subheader that starts neither with 0x54 nor
-- with 0xD4, gives the request back with serial number 0.
pub try_from_payload-build_mc3e :
    (r : McRequest)
    → IsRequest r
    → r.subheader.0 ≢ 0x54
    → r.subheader.0 ≢ 0xD4
    → try_from_payload (build_with_format r mc3e) ≡ ok (record r { serial_number = 0 })
unfolding try_from_payload
try_from_payload-build_mc3e r h n54 nD4 =
    rw (parse_frame-build_mc3e r h n54 nD4, data_slice-build_mc3e r h)
      (unfold build_with_format to_array in
        ground (arith, from_array-to_array r.access_route h.route))

length-data_slice :
    (p : Bytes) (pr : FrameParseResult) (d : Bytes)
    → data_slice p pr ≡ ok d
    → length d ≤ length p - pr.data_offset
unfolding data_slice slice
length-data_slice p pr d e =
    let n = min (length p) (pr.data_offset + pr.data_bytes) - pr.data_offset in
    ground (arith, length-take n (drop pr.data_offset p), length-drop pr.data_offset p)

-- What a successful `try_from_payload` has read.
record Parsed (p : Bytes) (r : McRequest) : Type 0 where
  header : FrameParseResult
  slice_of : Bytes
  parses : parse_frame p ≡ ok header
  slices : data_slice p header ≡ ok slice_of
  same_data : r.request_data ≡ slice_of
  same_serial : r.serial_number ≡ get_or header.serial_number 0

try_from_payload-Parsed : (p : Bytes) (r : McRequest) → try_from_payload p ≡ ok r → Parsed p r
unfolding try_from_payload
try_from_payload-Parsed p r e =
    let (pr, parses, e') = bind-eq-ok (parse_frame p) _ e in
    let (d, slices, e'') = bind-eq-ok (data_slice p pr) _ e' in
    record {
      header = pr;
      slice_of = d;
      parses = parses;
      slices = slices;
      same_data = ground (arith, e'');
      same_serial = ground (arith, e'');
    }

parse_frame-build_mc3e_default :
    (r : McRequest) (pr : FrameParseResult)
    → IsRequest r
    → r.subheader.0 ≡ 0x54
    → 4 ≤ length r.request_data
    → parse_frame (build_with_format r mc3e) ≡ ok pr
    → (pr.data_offset ≡ 15)
      × (pr.serial_number ≡ some (r.access_route.network_number + r.access_route.pc_number * 256))
unfolding parsed parsed_mc4e build_with_format
parse_frame-build_mc3e_default r pr h first long e =
    ground (arith, parse_frame-parsed (build_with_format r mc3e) (build_mc3e-IsBytes r h))

-- With the default subheader of `McRequest::new`, the MC3E frame of a valid request with at least
-- 4 bytes of data is read as an MC4E one: what is read back, if anything, holds less data, and
-- its serial number is made of the route's first two bytes.
pub try_from_payload-build_mc3e_default :
    (r : McRequest)
    → IsRequest r
    → r.subheader.0 ≡ 0x54
    → 4 ≤ length r.request_data
    → (r' : McRequest) → try_from_payload (build_with_format r mc3e) ≡ ok r'
    → (length r'.request_data < length r.request_data)
      × (r'.serial_number ≡ r.access_route.network_number + r.access_route.pc_number * 256)
try_from_payload-build_mc3e_default r h first long r' e =
    let p = try_from_payload-Parsed (build_with_format r mc3e) r' e in
    let q = parse_frame-build_mc3e_default r p.header h first long p.parses in
    let n = length-data_slice (build_with_format r mc3e) p.header p.slice_of p.slices in
    (ground (arith, length-build_mc3e r, n, q.0, p.same_data), ground (arith, q.1, p.same_serial))
