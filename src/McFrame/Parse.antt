-- ===== src/McFrame/Parse.antt =====
-- `parse_frame` with its reads resolved.
use melsec_mc.Prelude.{
  ℕ, ◌+◌, ◌-◌, ◌&&◌, true, false, none, some, ◌≡◌, ◌≤◌, ◌<◌, inl, inr, arith, length, get_or, leb,
  ltb, min, if◌then◌else◌, Bool-cases, leb→le, le→leb, le→ltb,
}
use melsec_mc.Error.{Result, ok, fail, mc4e_invalid_data_len, data_len_too_large, payload_too_short}
use melsec_mc.Bytes.{Bytes, IsBytes, le_at}
use melsec_mc.Bytes.Reads.{byte_at-lt, u16_at-lt, slice-le}
use melsec_mc.Bytes.Words.{le_at-IsU16}
use melsec_mc.McDefine.{Array2, Array5}
use melsec_mc.McFrame.{
  FrameParseResult, array5_at, u16_of, parse_mc4e, parse_raw, parse_mc3e, parse_subheader_mc3e,
  parse_frame,
}
use melsec_mc.McFrame.Detect.{starts_mc4e, starts_mc4e-le, is_mc4e_lem}

abbrev array5_of : Bytes → ℕ → Array5
array5_of p i =
    (get_or p i 0, get_or p (i + 1) 0, get_or p (i + 2) 0, get_or p (i + 3) 0, get_or p (i + 4) 0)

abbrev array2_of : Bytes → Array2
array2_of p = (get_or p 0 0, get_or p 1 0)

array5_at-lt : (p : Bytes) (i : ℕ) → i + 4 < length p → array5_at p i ≡ ok (array5_of p i)
unfolding array5_at
array5_at-lt p i h = rw (
  byte_at-lt p i (omega arith),
  byte_at-lt p (i + 1) (omega arith),
  byte_at-lt p (i + 2) (omega arith),
  byte_at-lt p (i + 3) (omega arith),
  byte_at-lt p (i + 4) (omega arith),
)

-- What each of the four layouts reads.
abbrev pub header_mc4e : Bytes → FrameParseResult
header_mc4e p = record {
  subheader = array2_of p;
  access_route = array5_of p 6;
  request_data_len = le_at p 11;
  data_offset = 15;
  data_bytes = le_at p 11 - 2;
  has_end_code = true;
  end_code = some (le_at p 13);
  monitor_timer = none;
  serial_number = some (le_at p 2);
}

abbrev pub header_subheader : Bytes → FrameParseResult
header_subheader p = record {
  subheader = array2_of p;
  access_route = array5_of p 2;
  request_data_len = le_at p 7;
  data_offset = 11;
  data_bytes = le_at p 7 - 2;
  has_end_code = false;
  end_code = none;
  monitor_timer = some (le_at p 9);
  serial_number = none;
}

abbrev header_mc3e : Bytes → FrameParseResult
header_mc3e p = record {
  subheader = (0xD0, 0x00);
  access_route = array5_of p 0;
  request_data_len = le_at p 5;
  data_offset = 9;
  data_bytes = le_at p 5 - 2;
  has_end_code = true;
  end_code = some (le_at p 7);
  monitor_timer = none;
  serial_number = none;
}

abbrev header_raw : Bytes → FrameParseResult
header_raw p = record {
  subheader = array2_of p;
  access_route = (0, 0, 0, 0, 0);
  request_data_len = length p - 2;
  data_offset = 2;
  data_bytes = length p - 2;
  has_end_code = false;
  end_code = none;
  monitor_timer = none;
  serial_number = none;
}

unfoldable pub parsed_raw : Bytes → Result FrameParseResult
parsed_raw p =
    if leb (length p - 2) 65535 then ok (header_raw p) else fail (data_len_too_large (length p - 2))

unfoldable pub parsed_mc3e : Bytes → Result FrameParseResult
parsed_mc3e p = if leb 9 (length p) && leb 2 (le_at p 5) then ok (header_mc3e p) else parsed_raw p

unfoldable pub parsed_subheader : Bytes → Result FrameParseResult
parsed_subheader p =
    if leb 11 (length p) && leb 2 (le_at p 7) then ok (header_subheader p) else parsed_mc3e p

unfoldable pub parsed_mc4e : Bytes → Result FrameParseResult
parsed_mc4e p =
    if ltb (le_at p 11) 2 then fail (mc4e_invalid_data_len (le_at p 11)) else ok (header_mc4e p)

unfoldable pub parsed : Bytes → Result FrameParseResult
parsed p =
    if ltb (length p) 2
    then fail payload_too_short
    else if starts_mc4e p
    then parsed_mc4e p
    else parsed_subheader p

module _ (p : Bytes) (bytes : IsBytes p) where
  u16_of-le_at : (i : ℕ) → u16_of (le_at p i) ≡ ok (le_at p i)
  u16_of-le_at i = let h = le_at-IsU16 p i bytes in rw (le→leb (le_at p i) 65535 (omega arith))

  parse_mc4e_lem : 15 ≤ length p → parse_mc4e (array2_of p) p ≡ parsed_mc4e p
  unfolding parse_mc4e parsed_mc4e
  parse_mc4e_lem h =
      rw
        (
          u16_at-lt p 2 (omega arith),
          array5_at-lt p 6 (omega arith),
          u16_at-lt p 11 (omega arith),
          u16_at-lt p 13 (omega arith),
          slice-le p 15 (min (length p) (15 + (le_at p 11 - 2))) (omega arith) (omega arith),
          le→leb 15 (length p) h,
        )
        (rw (u16_of-le_at 11))

  parse_raw_lem : 2 ≤ length p → parse_raw (array2_of p) p ≡ parsed_raw p
  unfolding parse_raw parsed_raw
  parse_raw_lem h = ground arith

  parse_mc3e_lem : 2 ≤ length p → parse_mc3e (array2_of p) p ≡ parsed_mc3e p
  unfolding parse_mc3e parsed_mc3e
  parse_mc3e_lem h = elim (Bool-cases (leb 9 (length p))) [
    | inl long ↦
        let n = leb→le 9 (length p) long in
        rw
          (
            long,
            array5_at-lt p 0 (omega arith),
            u16_at-lt p 5 (omega arith),
            u16_at-lt p 7 (omega arith),
          )
          (rw (u16_of-le_at 5, parse_raw_lem h))
    | inr short ↦ rw short (parse_raw_lem h)
  ]

  parse_subheader_lem : 2 ≤ length p → parse_subheader_mc3e (array2_of p) p ≡ parsed_subheader p
  unfolding parse_subheader_mc3e parsed_subheader
  parse_subheader_lem h = elim (Bool-cases (leb 11 (length p))) [
    | inl long ↦
        let n = leb→le 11 (length p) long in
        rw
          (
            long,
            array5_at-lt p 2 (omega arith),
            u16_at-lt p 7 (omega arith),
            u16_at-lt p 9 (omega arith),
            byte_at-lt p 0 (omega arith),
            byte_at-lt p 1 (omega arith),
          )
          (rw (u16_of-le_at 7, parse_mc3e_lem h))
    | inr short ↦ rw short (parse_mc3e_lem h)
  ]

  parse_frame-parsed_long : 2 ≤ length p → parse_frame p ≡ parsed p
  unfolding parse_frame parsed
  parse_frame-parsed_long h =
      rw
        (
          le→ltb (length p) 2 h,
          byte_at-lt p 0 (omega arith),
          byte_at-lt p 1 (omega arith),
          is_mc4e_lem p,
        )
        (elim (Bool-cases (starts_mc4e p)) [
          | inl m ↦ rw m (parse_mc4e_lem (starts_mc4e-le p m))
          | inr m ↦ rw m (parse_subheader_lem h)
        ])

pub parse_frame-parsed : (p : Bytes) → IsBytes p → parse_frame p ≡ parsed p
parse_frame-parsed p bytes = elim (Bool-cases (ltb (length p) 2)) [
  | inl short ↦ unfold parse_frame parsed in rw short
  | inr long ↦ parse_frame-parsed_long p bytes (ground arith)
]
