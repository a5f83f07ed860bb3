-- ===== src/Transport/Partial.antt =====
-- What `perform_stream_io` makes of a response whose first read ends inside the header.
use melsec_mc.Prelude.{
  ℕ, suc, ◌≤◌, ◌<◌, ◌≡◌, none, some, Option, String, List, [], ◌∷◌, ◌++◌, refl, arith, length,
  length-append, append_assoc, leb, get_or, get_or-append, if◌then◌else◌,
}
use melsec_mc.Error.{ok}
use melsec_mc.Bytes.{Bytes, le_at}
use melsec_mc.McFrame.Detect.{layout, layout_mc3e, layout_subheader, detect_frame-layout}
use melsec_mc.McFrame.Bounds.{le_at-append}
use melsec_mc.Transport.{
  skip, wait, pending, scan_found, scan_detected, scan_step, scan, Incoming, closed, broken, chunk,
  Io, failed, receive, write_then, perform_stream_io,
}
use melsec_mc.Transport.Scan.{scan-suc, scan_on}
use melsec_mc.Transport.Stream.{received, receive_on, receive-chunk}

-- A buffer that is taken for the start of an MC3E frame of 65287 or 1032 bytes.
record IsStuck (buf : Bytes) : Type 0 where
  pub long : 10 ≤ length buf
  pub first : get_or buf 0 0 ≡ 0
  pub word_5 : le_at buf 5 ≡ 0xFF00
  pub word_7 : le_at buf 7 ≡ 0x3FF

IsStuck-append : (buf more : Bytes) → IsStuck buf → IsStuck (buf ++ more)
IsStuck-append buf more h =
    let long = h.long in
    record {
      long = omega (arith, length-append buf more);
      first = rw (get_or-append buf more 0 0 (omega arith)) h.first;
      word_5 = rw (le_at-append buf more 5 (omega arith)) h.word_5;
      word_7 = rw (le_at-append buf more 7 (omega arith)) h.word_7;
    }

layout_stuck :
    (buf : Bytes)
    → IsStuck buf
    → layout buf
      ≡ (if leb 11 (length buf) then ok (some (1032, 11, none)) else ok (some (65287, 9, none)))
unfolding layout layout_subheader layout_mc3e
layout_stuck buf h = rw (h.first, h.word_5, h.word_7) (ground (arith, h.long))

scan_step_stuck :
    (expected : ℕ) (buf : Bytes) → IsStuck buf → length buf < 1032 → scan_step expected buf ≡ wait
unfolding scan_step scan_detected scan_found
scan_step_stuck expected buf h short =
    rw (detect_frame-layout buf, layout_stuck buf h) (ground arith)

scan_stuck :
    (fuel expected : ℕ) (buf : Bytes)
    → IsStuck buf
    → length buf < 1032
    → scan (suc fuel) expected buf ≡ pending buf
unfolding scan_on
scan_stuck fuel expected buf h short =
    rw (scan-suc fuel expected buf, scan_step_stuck expected buf h short)

-- An exchange that fails.
abbrev Fails : Io → Type 0
Fails io = (e : String) × (io ≡ failed e)

receive_more :
    (writes : List (Option String)) (expected : ℕ) (buf : Bytes) (b : ℕ) (bs : Bytes)
    (rest : Incoming)
    → IsStuck buf
    → length (buf ++ received (chunk (b ∷ bs) rest)) < 1032
    → Fails (receive writes expected (buf ++ (b ∷ bs)) rest)
    → Fails (receive writes expected buf (chunk (b ∷ bs) rest))
unfolding receive_on
receive_more writes expected buf b bs rest h short fails =
    let all = buf ++ (b ∷ bs) in
    rw
      (
        receive-chunk writes expected buf b bs rest,
        scan_stuck (length all) expected all (IsStuck-append buf (b ∷ bs) h) (
            omega (
              arith,
              length-append buf (b ∷ bs),
              length-append buf ((b ∷ bs) ++ received rest),
              length-append (b ∷ bs) (received rest),
              short,
            )),
      )
      fails

receive_stuck :
    (writes : List (Option String)) (expected : ℕ) (buf : Bytes) (incoming : Incoming)
    → IsStuck buf
    → length (buf ++ received incoming) < 1032
    → Fails (receive writes expected buf incoming)
receive_stuck writes expected buf closed h short = unfold receive in (_, refl)
receive_stuck writes expected buf (broken e) h short = unfold receive in (_, refl)
receive_stuck writes expected buf (chunk [] rest) h short = unfold receive in (_, refl)
receive_stuck writes expected buf (chunk (b ∷ bs) rest) h short =
    receive_more writes expected buf b bs rest h short (
      receive_stuck writes expected (buf ++ (b ∷ bs)) rest (IsStuck-append buf (b ∷ bs) h)
        (rw (append_assoc buf (b ∷ bs) (received rest)) short))

-- The first 11 bytes of an MC4E response with a serial number of these two bytes: the subheader,
-- the serial number, two reserved bytes and the default access route.
abbrev pub response_start : ℕ → ℕ → Bytes
response_start low high =
    0xD4 ∷ 0x00 ∷ low ∷ high ∷ 0x00 ∷ 0x00 ∷ 0x00 ∷ 0xFF ∷ 0xFF ∷ 0x03 ∷ 0x00 ∷ []

scan_step_start :
    (expected low high : ℕ) (more : Bytes)
    → length more < 4
    → scan_step expected (response_start low high ++ more) ≡ skip 1
unfolding scan_step scan_detected scan_found layout layout_subheader
scan_step_start expected low high more h =
    rw (detect_frame-layout (response_start low high ++ more)) (ground arith)

-- The bytes after the first one.
abbrev left : ℕ → ℕ → Bytes → Bytes
left low high more = 0x00 ∷ low ∷ high ∷ 0x00 ∷ 0x00 ∷ 0x00 ∷ 0xFF ∷ 0xFF ∷ 0x03 ∷ 0x00 ∷ more

left-IsStuck : (low high : ℕ) (more : Bytes) → IsStuck (left low high more)
left-IsStuck low high more = record {
  long = omega arith;
  first = refl;
  word_5 = refl;
  word_7 = refl;
}

scan_start :
    (expected low high : ℕ) (more : Bytes)
    → length more < 4
    → length (left low high more) < 1032
    → scan
        (suc (length (response_start low high ++ more)))
        expected
        (response_start low high ++ more)
      ≡ pending (left low high more)
unfolding scan_on
scan_start expected low high more h short =
    rw
      (
        scan-suc (length (response_start low high ++ more)) expected
            (response_start low high ++ more),
        scan_step_start expected low high more h,
      )
      (scan_stuck (length (left low high more)) expected (left low high more)
        (left-IsStuck low high more) short)

-- If the first read of an MC4E response of at most 1032 bytes with the default access route ends
-- inside the header, after 11 to 14 bytes, the exchange fails, whatever serial number is expected
-- and in whatever reads the rest arrives: its first byte is dropped, and what is left is taken for
-- the start of a longer frame.
pub perform_stream_io_partial :
    (writes : List (Option String)) (expected low high : ℕ) (more : Bytes) (after : Incoming)
    → length more < 4
    → length (response_start low high ++ (more ++ received after)) ≤ 1032
    → Fails (
        perform_stream_io
          (record {
            writes = none ∷ writes;
            incoming = chunk (response_start low high ++ more) after;
          })
          expected)
unfolding perform_stream_io write_then
perform_stream_io_partial writes expected low high more after h fits =
    rw
      (
        receive-chunk writes expected [] 0xD4 (left low high more) after,
        scan_start expected low high more h (omega arith),
      )
      (unfold receive_on in
        receive_stuck writes expected (left low high more) after (left-IsStuck low high more)
          (omega (arith, fits)))
