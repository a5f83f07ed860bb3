-- ===== src/McFrame.antt =====
-- src/mc_frame.rs: `detect_frame` finds where a frame ends, `parse_frame` reads its header.
pub mod Detect
pub mod Parse
pub mod Agree
pub mod Bounds
mod Tests
use melsec_mc.Prelude.{
  ℕ, ◌+◌, ◌-◌, ◌^◌, min, Bool, true, false, ◌||◌, Option, none, some, length, ltb, leb, ◌==◌,
  if◌then◌else◌,
}
use melsec_mc.Error.{
  Result, ok, panic, fail, ◌>>=◌, ◌>>◌, payload_too_short, mc4e_invalid_data_len,
  mc4e_length_mismatch, data_len_too_large,
}
use melsec_mc.Bytes.{Bytes, byte_at, u16_at, slice}
use melsec_mc.McDefine.{Array2, Array5, mc_subheader_request, mc_subheader_response}

-- `usize` has 64 bits.
abbrev saturating_add : ℕ → ℕ → ℕ
saturating_add a b = min (a + b) (2 ^ 64 - 1)

-- `buf.len() >= 15 && (buf[0] == REQUEST[0] || buf[0] == RESPONSE[0])`; an operand is read only
-- where those before it leave the result open.
pub is_mc4e : Bytes → Result Bool
is_mc4e buf =
    if leb 15 (length buf)
    then (do
      b ← byte_at buf 0
      if b == mc_subheader_request.0
          then ok true
          else (do c ← byte_at buf 0; ok (c == mc_subheader_response.0)))
    else ok false

-- `(frame_len, header_len, serial_opt)`
abbrev pub Detected : Type 0
Detected = Option (ℕ × ℕ × Option ℕ)

-- The last lines of each branch, for `data_len >= 2`.
abbrev found : ℕ → ℕ → Option ℕ → Result Detected
found header_len data_len serial =
    ok (some (saturating_add header_len (data_len - 2), header_len, serial))

detect_mc4e : Bytes → Result Detected
detect_mc4e buf = do
  data_len ← u16_at buf 11
  if ltb data_len 2
      then fail (mc4e_invalid_data_len data_len)
      else if leb 4 (length buf)
      then (do serial ← u16_at buf 2; found 15 data_len (some serial))
      else found 15 data_len none

detect_mc3e : Bytes → Result Detected
detect_mc3e buf =
    if leb 9 (length buf)
    then (do data_len ← u16_at buf 5; if leb 2 data_len then found 9 data_len none else ok none)
    else ok none

detect_subheader_mc3e : Bytes → Result Detected
detect_subheader_mc3e buf =
    if leb 11 (length buf)
    then (do
      data_len ← u16_at buf 7
      if leb 2 data_len then found 11 data_len none else detect_mc3e buf)
    else detect_mc3e buf

pub detect_frame : Bytes → Result Detected
detect_frame buf =
    if ltb (length buf) 2
    then ok none
    else (do m ← is_mc4e buf; if m then detect_mc4e buf else detect_subheader_mc3e buf)

pub record FrameParseResult : Type 0 where
  pub subheader : Array2
  pub access_route : Array5
  pub request_data_len : ℕ
  pub data_offset : ℕ
  pub data_bytes : ℕ
  pub has_end_code : Bool
  pub end_code : Option ℕ
  pub monitor_timer : Option ℕ
  pub serial_number : Option ℕ

-- `access_route.copy_from_slice(&payload[i..i + 5])`
pub array5_at : Bytes → ℕ → Result Array5
array5_at buf i = do
  a ← byte_at buf i
  b ← byte_at buf (i + 1)
  c ← byte_at buf (i + 2)
  d ← byte_at buf (i + 3)
  e ← byte_at buf (i + 4)
  ok (a, b, c, d, e)

-- `u16::try_from(n)`
abbrev u16_of : ℕ → Result ℕ
u16_of n = if leb n 65535 then ok n else fail (data_len_too_large n)

parse_mc4e : Array2 → Bytes → Result FrameParseResult
parse_mc4e subheader payload = do
  serial ← u16_at payload 2
  access_route ← array5_at payload 6
  data_len_bytes ← u16_at payload 11
  if ltb data_len_bytes 2 then fail (mc4e_invalid_data_len data_len_bytes) else (do
    end_code_val ← u16_at payload 13
    let data_bytes = data_len_bytes - 2
    _data ← slice payload 15 (min (length payload) (15 + data_bytes))
    if leb 15 (length payload) || end_code_val == 0
        then (do
          len ← u16_of data_len_bytes
          ok (record {
            subheader = subheader;
            access_route = access_route;
            request_data_len = len;
            data_offset = 15;
            data_bytes = data_bytes;
            has_end_code = true;
            end_code = some end_code_val;
            monitor_timer = none;
            serial_number = some serial;
          }))
        else fail (mc4e_length_mismatch (length payload) data_bytes))

-- The whole rest of the payload as data, with no end code.
parse_raw : Array2 → Bytes → Result FrameParseResult
parse_raw subheader payload =
    let len = if ltb 2 (length payload) then length payload - 2 else 0 in
    do
      n ← u16_of len
      ok (record {
        subheader = subheader;
        access_route = (0, 0, 0, 0, 0);
        request_data_len = n;
        data_offset = 2;
        data_bytes = len;
        has_end_code = false;
        end_code = none;
        monitor_timer = none;
        serial_number = none;
      })

parse_mc3e : Array2 → Bytes → Result FrameParseResult
parse_mc3e subheader payload =
    if leb 9 (length payload)
    then (do
      access_route ← array5_at payload 0
      data_len_bytes ← u16_at payload 5
      if leb 2 data_len_bytes
          then (do
            end_code_val ← u16_at payload 7
            if leb 9 (length payload) || end_code_val == 0
                then (do
                  len ← u16_of data_len_bytes
                  ok (record {
                    subheader = (0xD0, 0x00);
                    access_route = access_route;
                    request_data_len = len;
                    data_offset = 9;
                    data_bytes = data_len_bytes - 2;
                    has_end_code = true;
                    end_code = some end_code_val;
                    monitor_timer = none;
                    serial_number = none;
                  }))
                else parse_raw subheader payload)
          else parse_raw subheader payload)
    else parse_raw subheader payload

parse_subheader_mc3e : Array2 → Bytes → Result FrameParseResult
parse_subheader_mc3e subheader payload =
    if leb 11 (length payload)
    then (do
      access_route ← array5_at payload 2
      data_len_bytes ← u16_at payload 7
      if leb 2 data_len_bytes
          then (do
            end_code_val ← u16_at payload 9
            if leb 11 (length payload) || end_code_val == 0
                then (do
                  monitor ← u16_at payload 9
                  s0 ← byte_at payload 0
                  s1 ← byte_at payload 1
                  len ← u16_of data_len_bytes
                  ok (record {
                    subheader = (s0, s1);
                    access_route = access_route;
                    request_data_len = len;
                    data_offset = 11;
                    data_bytes = data_len_bytes - 2;
                    has_end_code = false;
                    end_code = none;
                    monitor_timer = some monitor;
                    serial_number = none;
                  }))
                else parse_mc3e subheader payload)
          else parse_mc3e subheader payload)
    else parse_mc3e subheader payload

pub parse_frame : Bytes → Result FrameParseResult
parse_frame payload = if ltb (length payload) 2 then fail payload_too_short else (do
  s0 ← byte_at payload 0
  s1 ← byte_at payload 1
  m ← is_mc4e payload
  if m then parse_mc4e (s0, s1) payload else parse_subheader_mc3e (s0, s1) payload)
