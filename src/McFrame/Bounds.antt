-- ===== src/McFrame/Bounds.antt =====
-- What `detect_frame` says of a buffer, and when more bytes can change it.
use melsec_mc.Prelude.{
  ℕ, ◌+◌, ◌≤◌, ◌<◌, ◌++◌, Option, none, some, ◌≡◌, ◌≢◌, true, false, arith, length, get_or,
  length-append, get_or-append, Bool-cases, inl, inr, ◌∙◌,
}
use melsec_mc.Error.{MelsecError, ok, err, panic}
use melsec_mc.Bytes.{Bytes, IsBytes, le_at}
use melsec_mc.Bytes.Words.{le_at-IsU16}
use melsec_mc.McFrame.{detect_frame}
use melsec_mc.McFrame.Detect.{
  starts_mc4e, layout, layout_mc4e, layout_mc3e, layout_subheader, detect_frame-layout,
}

layout-ne-panic : (buf : Bytes) → layout buf ≢ panic
unfolding layout layout_mc4e layout_subheader layout_mc3e
layout-ne-panic buf = ground arith

-- No buffer makes `detect_frame` read out of range.
pub detect_frame-ne-panic : (buf : Bytes) → detect_frame buf ≢ panic
detect_frame-ne-panic buf = rw detect_frame-layout (layout-ne-panic buf)

layout-err : (buf : Bytes) (e : MelsecError) → layout buf ≡ err e → starts_mc4e buf ≡ true
unfolding layout layout_mc4e layout_subheader layout_mc3e
layout-err buf e h = ground arith

-- Only a buffer that starts as an MC4E frame is malformed.
pub detect_frame-err :
    (buf : Bytes) (e : MelsecError) → detect_frame buf ≡ err e → starts_mc4e buf ≡ true
detect_frame-err buf e h = layout-err buf e (rw detect_frame-layout at h)

-- A frame that `detect_frame` finds in `buf`.
pub record IsDetected (buf : Bytes) (frame_len header_len : ℕ) (serial : Option ℕ) : Type 0 where
  pub header_present : header_len ≤ length buf
  pub frame_ge_header : header_len ≤ frame_len
  pub frame_le : frame_len ≤ header_len + 65533
  pub header_ge : 9 ≤ header_len
  pub header_le : header_len ≤ 15
  pub has_serial : starts_mc4e buf ≡ true → (header_len ≡ 15) × (serial ≡ some (le_at buf 2))
  pub no_serial : starts_mc4e buf ≡ false → (header_len ≤ 11) × (serial ≡ none)

layout_mc4e-IsDetected :
    (buf : Bytes) (frame_len header_len : ℕ) (serial : Option ℕ)
    → IsBytes buf
    → starts_mc4e buf ≡ true
    → layout_mc4e buf ≡ ok (some (frame_len, header_len, serial))
    → IsDetected buf frame_len header_len serial
unfolding layout_mc4e
layout_mc4e-IsDetected buf f h s bytes m e = ground (arith, le_at-IsU16 buf 11 bytes)

layout_subheader-IsDetected :
    (buf : Bytes) (frame_len header_len : ℕ) (serial : Option ℕ)
    → IsBytes buf
    → starts_mc4e buf ≡ false
    → layout_subheader buf ≡ ok (some (frame_len, header_len, serial))
    → IsDetected buf frame_len header_len serial
unfolding layout_subheader layout_mc3e
layout_subheader-IsDetected buf f h s bytes m e =
    ground (arith, le_at-IsU16 buf 7 bytes, le_at-IsU16 buf 5 bytes)

layout-IsDetected :
    (buf : Bytes) (frame_len header_len : ℕ) (serial : Option ℕ)
    → IsBytes buf
    → layout buf ≡ ok (some (frame_len, header_len, serial))
    → IsDetected buf frame_len header_len serial
unfolding layout
layout-IsDetected buf f h s bytes e = elim (Bool-cases (starts_mc4e buf)) [
  | inl m ↦ layout_mc4e-IsDetected buf f h s bytes m (rw m at e)
  | inr m ↦ layout_subheader-IsDetected buf f h s bytes m (rw m at e)
]

-- Where `detect_frame` finds a frame in a buffer of bytes, its header is in the buffer and has 9
-- to 15 bytes, the frame is no shorter than the header and at most 65533 bytes longer, and it has
-- a serial number, read from bytes 2 and 3, exactly if the buffer starts as an MC4E frame.
pub detect_frame-IsDetected :
    (buf : Bytes) (frame_len header_len : ℕ) (serial : Option ℕ)
    → IsBytes buf
    → detect_frame buf ≡ ok (some (frame_len, header_len, serial))
    → IsDetected buf frame_len header_len serial
detect_frame-IsDetected buf f h s bytes e =
    layout-IsDetected buf f h s bytes (rw detect_frame-layout at e)

pub le_at-append :
    (buf rest : Bytes) (i : ℕ) → i + 1 < length buf → le_at (buf ++ rest) i ≡ le_at buf i
le_at-append buf rest i h =
    rw (get_or-append buf rest i 0 (omega arith), get_or-append buf rest (i + 1) 0 (omega arith))

-- Once 15 bytes are there, more bytes do not change what `detect_frame` says.
pub detect_frame-append :
    (buf rest : Bytes) → 15 ≤ length buf → detect_frame (buf ++ rest) ≡ detect_frame buf
unfolding layout layout_mc4e layout_subheader layout_mc3e
detect_frame-append buf rest h =
    rw
      (
        detect_frame-layout (buf ++ rest),
        detect_frame-layout buf,
        length-append buf rest,
        le_at-append buf rest 2 (omega arith),
        le_at-append buf rest 5 (omega arith),
        le_at-append buf rest 7 (omega arith),
        le_at-append buf rest 11 (omega arith),
        get_or-append buf rest 0 0 (omega arith),
      )
      (ground arith)

layout_partial :
    (buf : Bytes)
    → IsBytes buf
    → 11 ≤ length buf
    → length buf < 15
    → 2 ≤ le_at buf 7
    → layout buf ≡ ok (some (9 + le_at buf 7, 11, none))
unfolding layout layout_subheader
layout_partial buf bytes h k e = ground (arith, le_at-IsU16 buf 7 bytes)

detect_partial :
    (buf : Bytes)
    → IsBytes buf
    → 11 ≤ length buf
    → length buf < 15
    → 2 ≤ le_at buf 7
    → detect_frame buf ≡ ok (some (9 + le_at buf 7, 11, none))
detect_partial buf bytes h k e = detect_frame-layout buf ∙ layout_partial buf bytes h k e

layout_whole :
    (buf : Bytes) (frame_len : ℕ)
    → starts_mc4e buf ≡ true
    → layout buf ≢ ok (some (frame_len, 11, none))
unfolding layout layout_mc4e
layout_whole buf f m = rw m (ground arith)

-- 11 to 14 bytes of an MC4E response are taken for a frame with an 11-byte header and no serial
-- number, if bytes 7 and 8 (the PC and I/O numbers) are not below 2 as a word; with the rest of
-- the header behind them the result is another.
pub detect_frame_partial :
    (buf rest : Bytes)
    → IsBytes buf
    → 11 ≤ length buf
    → length buf < 15
    → 15 ≤ length (buf ++ rest)
    → get_or buf 0 0 ≡ 0xD4
    → 2 ≤ le_at buf 7
    → (detect_frame buf ≡ ok (some (9 + le_at buf 7, 11, none)))
      × (detect_frame (buf ++ rest) ≢ detect_frame buf)
detect_frame_partial buf rest bytes h k l first e = (
  found_11,
  rw (detect_frame-layout (buf ++ rest), found_11) (layout_whole (buf ++ rest) _ starts),
)
  where
    found_11 : detect_frame buf ≡ ok (some (9 + le_at buf 7, 11, none))
    found_11 = detect_partial buf bytes h k e

    starts : starts_mc4e (buf ++ rest) ≡ true
    starts = ground (arith, get_or-append buf rest 0 0)
