-- ===== src/McFrame/Detect.antt =====
-- `detect_frame` with its reads resolved.
use melsec_mc.Prelude.{
  Bool, ◌&&◌, ◌||◌, true, none, some, ◌≡◌, sym, ◌≤◌, inl, inr, arith, length, get_or, leb, ltb,
  ◌==◌, if◌then◌else◌, Bool-cases, leb→le, le→leb,
}
use melsec_mc.Error.{Result, ok, fail, mc4e_invalid_data_len}
use melsec_mc.Bytes.{Bytes, le_at}
use melsec_mc.Bytes.Reads.{byte_at-lt, u16_at-lt}
use melsec_mc.McFrame.{
  is_mc4e, Detected, detect_mc4e, detect_mc3e, detect_subheader_mc3e, detect_frame, found,
}

-- The first byte is that of an MC4E request or response, and the header is complete.
abbrev pub starts_mc4e : Bytes → Bool
starts_mc4e buf = leb 15 (length buf) && (get_or buf 0 0 == 0x54 || get_or buf 0 0 == 0xD4)

pub is_mc4e_lem : (buf : Bytes) → is_mc4e buf ≡ ok (starts_mc4e buf)
unfolding is_mc4e
is_mc4e_lem buf = ground (arith, byte_at-lt buf 0)

-- The three layouts in the order in which they are tried.
unfoldable pub layout_mc4e : Bytes → Result Detected
layout_mc4e buf =
    if ltb (le_at buf 11) 2
    then fail (mc4e_invalid_data_len (le_at buf 11))
    else found 15 (le_at buf 11) (some (le_at buf 2))

unfoldable pub layout_mc3e : Bytes → Result Detected
layout_mc3e buf =
    if leb 9 (length buf) && leb 2 (le_at buf 5) then found 9 (le_at buf 5) none else ok none

unfoldable pub layout_subheader : Bytes → Result Detected
layout_subheader buf =
    if leb 11 (length buf) && leb 2 (le_at buf 7)
    then found 11 (le_at buf 7) none
    else layout_mc3e buf

unfoldable pub layout : Bytes → Result Detected
layout buf = if starts_mc4e buf then layout_mc4e buf else layout_subheader buf

detect_mc4e_lem : (buf : Bytes) → 15 ≤ length buf → detect_mc4e buf ≡ layout_mc4e buf
unfolding detect_mc4e layout_mc4e
detect_mc4e_lem buf h = rw (
  u16_at-lt buf 11 (omega arith),
  le→leb 4 (length buf) (omega arith),
  u16_at-lt buf 2 (omega arith),
)

detect_mc3e_lem : (buf : Bytes) → detect_mc3e buf ≡ layout_mc3e buf
unfolding detect_mc3e layout_mc3e
detect_mc3e_lem buf = elim (Bool-cases (leb 9 (length buf))) [
  | inl long ↦ let n = leb→le 9 (length buf) long in rw (long, u16_at-lt buf 5 (omega arith))
  | inr short ↦ rw short
]

detect_subheader_lem : (buf : Bytes) → detect_subheader_mc3e buf ≡ layout_subheader buf
unfolding detect_subheader_mc3e layout_subheader
detect_subheader_lem buf = elim (Bool-cases (leb 11 (length buf))) [
  | inl long ↦
      let n = leb→le 11 (length buf) long in
      rw (long, u16_at-lt buf 7 (omega arith), detect_mc3e_lem buf)
  | inr short ↦ rw (short, detect_mc3e_lem buf)
]

pub starts_mc4e-le : (buf : Bytes) → starts_mc4e buf ≡ true → 15 ≤ length buf
starts_mc4e-le buf h = ground arith

layout_short : (buf : Bytes) → ltb (length buf) 2 ≡ true → layout buf ≡ ok none
unfolding layout layout_subheader layout_mc3e
layout_short buf h = ground arith

pub detect_frame-layout : (buf : Bytes) → detect_frame buf ≡ layout buf
unfolding detect_frame layout
detect_frame-layout buf = elim (Bool-cases (ltb (length buf) 2)) [
  | inl short ↦ rw short (sym (layout_short buf short))
  | inr long ↦
      rw (long, is_mc4e_lem buf)
        (elim (Bool-cases (starts_mc4e buf)) [
          | inl m ↦ rw m (detect_mc4e_lem buf (starts_mc4e-le buf m))
          | inr m ↦ rw m (detect_subheader_lem buf)
        ])
]
