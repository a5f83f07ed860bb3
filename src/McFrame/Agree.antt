-- ===== src/McFrame/Agree.antt =====
-- `parse_frame` reads the frame that `detect_frame` finds.
use melsec_mc.Prelude.{
  ◌+◌, ◌<◌, none, some, ◌≡◌, ◌≢◌, ◌⊎◌, inl, inr, true, false, arith, length, ltb, Bool-cases,
}
use melsec_mc.Error.{Result, ok, err, panic}
use melsec_mc.Bytes.{Bytes, IsBytes}
use melsec_mc.Bytes.Words.{le_at-IsU16}
use melsec_mc.McFrame.{Detected, FrameParseResult, detect_frame, parse_frame}
use melsec_mc.McFrame.Detect.{
  starts_mc4e, layout, layout_mc4e, layout_mc3e, layout_subheader, detect_frame-layout,
}
use melsec_mc.McFrame.Parse.{
  parsed, parsed_mc4e, parsed_subheader, parsed_mc3e, parsed_raw, parse_frame-parsed,
}

-- A frame found is a header parsed with the same sizes and serial number; an error is the same
-- error; where no frame is found, the rest is raw data, or the payload is too short or too long.
abbrev pub Agree : Bytes → Result Detected → Result FrameParseResult → Type 0
Agree p (ok (some (frame_len, header_len, serial))) (ok r) =
    (r.data_offset ≡ header_len)
    × (r.data_offset + r.data_bytes ≡ frame_len)
    × (r.serial_number ≡ serial)
    × (r.request_data_len ≡ r.data_bytes + 2)
Agree p (ok none) (ok r) = (r.data_offset ≡ 2) × (r.data_offset + r.data_bytes ≡ length p)
Agree p (ok none) (err e) = (length p < 2) ⊎ (65537 < length p)
Agree p (err e) (err e') = e ≡ e'
Agree p _ _ = ⊥

layouts_mc4e : (p : Bytes) → IsBytes p → Agree p (layout_mc4e p) (parsed_mc4e p)
unfolding layout_mc4e parsed_mc4e
layouts_mc4e p bytes = ground (arith, le_at-IsU16 p 11 bytes)

layouts_subheader :
    (p : Bytes)
    → IsBytes p
    → ltb (length p) 2 ≡ false
    → Agree p (layout_subheader p) (parsed_subheader p)
unfolding layout_subheader layout_mc3e parsed_subheader parsed_mc3e parsed_raw
layouts_subheader p bytes h = ground (arith, le_at-IsU16 p 7 bytes, le_at-IsU16 p 5 bytes)

layouts_short : (p : Bytes) → ltb (length p) 2 ≡ true → Agree p (layout p) (parsed p)
unfolding layout layout_subheader layout_mc3e parsed
layouts_short p h = ground arith

layouts-Agree : (p : Bytes) → IsBytes p → Agree p (layout p) (parsed p)
layouts-Agree p bytes = elim (Bool-cases (ltb (length p) 2)) [
  | inl short ↦ layouts_short p short
  | inr long ↦ elim (Bool-cases (starts_mc4e p)) [
    | inl m ↦ unfold layout parsed in rw (long, m) (layouts_mc4e p bytes)
    | inr m ↦ unfold layout parsed in rw (long, m) (layouts_subheader p bytes long)
  ]
]

-- On every buffer of bytes the two functions agree: a frame found is parsed with the same header
-- length, frame length and serial number, and both report the same malformed header.
pub parse_frame-detect_frame : (p : Bytes) → IsBytes p → Agree p (detect_frame p) (parse_frame p)
parse_frame-detect_frame p bytes =
    rw (detect_frame-layout p, parse_frame-parsed p bytes) (layouts-Agree p bytes)

parsed-ne-panic : (p : Bytes) → parsed p ≢ panic
unfolding parsed parsed_mc4e parsed_subheader parsed_mc3e parsed_raw
parsed-ne-panic p = ground arith

-- No payload makes `parse_frame` read out of range.
pub parse_frame-ne-panic : (p : Bytes) → IsBytes p → parse_frame p ≢ panic
parse_frame-ne-panic p bytes = rw (parse_frame-parsed p bytes) (parsed-ne-panic p)
