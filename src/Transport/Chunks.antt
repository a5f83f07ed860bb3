-- ===== src/Transport/Chunks.antt =====
-- How a response is found whatever comes before it, behind it and in how many reads it comes.
use melsec_mc.Prelude.{
  ℕ, zero, suc, ◌≤◌, ◌<◌, ◌≡◌, ◌≢◌, ◌⊎◌, inl, inr, Option, none, some, String, List, [], ◌∷◌, ◌++◌,
  refl, sym, ◌∙◌, ap, ◌||◌, arith, length, length-append, append_assoc, append-nil, take,
  take-append_le, take-append_length, drop-append_length, All, ltb, ◌==◌, if◌then◌else◌, Bool-cases,
  ltb→lt,
}
use melsec_mc.Error.{ok}
use melsec_mc.Bytes.{Bytes}
use melsec_mc.McDefine.{mc4e}
use melsec_mc.McFrame.{detect_frame}
use melsec_mc.McFrame.Bounds.{detect_frame-append}
use melsec_mc.Request.{McRequest, IsRequest, build_with_format}
use melsec_mc.Request.Build.{detect_frame-build_mc4e, length-build_mc4e}
use melsec_mc.Transport.{
  skip, deliver, wait, delivered, pending, scan_found, scan_detected, scan_step, scan, Incoming,
  closed, broken, chunk, TcpStream, Io, done, receive, write_then, perform_stream_io, max_frame_len,
}
use melsec_mc.Transport.Scan.{scan-suc, scan_on}
use melsec_mc.Transport.Stream.{received, receive_on, receive-chunk}

-- A whole MC4E frame that the transport can take.
pub record IsMc4eFrame (f : Bytes) (serial : ℕ) : Type 0 where
  pub has_header : 15 ≤ length f
  pub small : length f ≤ max_frame_len
  pub found : (rest : Bytes) → detect_frame (f ++ rest) ≡ ok (some (length f, 15, some serial))

-- A built MC4E frame is one, if its data leave room for the header.
pub build_mc4e-IsMc4eFrame :
    (r : McRequest)
    → IsRequest r
    → (r.subheader.0 ≡ 0x54) ⊎ (r.subheader.0 ≡ 0xD4)
    → length r.request_data ≤ 65520
    → IsMc4eFrame (build_with_format r mc4e) r.serial_number
build_mc4e-IsMc4eFrame r h first fits = record {
  has_header = omega (arith, length-build_mc4e r);
  small = omega (arith, length-build_mc4e r);
  found = λ rest. detect_frame-build_mc4e r rest h first;
}

module _ {f : Bytes} {serial : ℕ} (frame : IsMc4eFrame f serial) (expected : ℕ) where
  scan_step-mc4e :
      (buf : Bytes)
      → detect_frame buf ≡ ok (some (length f, 15, some serial))
      → scan_step expected buf ≡ (
          if ltb (length buf) (length f)
          then wait
          else if expected == 0 || serial == expected
          then deliver (length f)
          else skip (length f))
  unfolding scan_step scan_detected scan_found
  scan_step-mc4e buf e = rw e (ground (arith, frame.has_header, frame.small))

  -- A stale frame is dropped.
  scan_stale_step :
      (fuel : ℕ) (rest : Bytes)
      → expected ≢ 0
      → serial ≢ expected
      → scan (suc fuel) expected (f ++ rest) ≡ scan fuel expected rest
  unfolding scan_on
  scan_stale_step fuel rest n0 ne =
      rw (scan-suc fuel expected (f ++ rest), scan_step-mc4e (f ++ rest) (frame.found rest))
        (ground (arith, length-append f rest, drop-append_length (length f) f rest refl))

  -- The frame awaited is returned from a buffer that has it all, and waited for in one that has
  -- its first 15 bytes.
  scan_prefix :
      (fuel : ℕ) (buf tail rest : Bytes)
      → buf ++ tail ≡ f ++ rest
      → 15 ≤ length buf
      → (expected ≡ 0) ⊎ (serial ≡ expected)
      → (length buf < length f → scan (suc fuel) expected buf ≡ pending buf)
        × (length f ≤ length buf → scan (suc fuel) expected buf ≡ delivered f)
  unfolding scan_on
  scan_prefix fuel buf tail rest same long mine = (
    λ short. rw (scan-suc fuel expected buf, scan_step-mc4e buf here) (ground arith),
    λ whole. rw (scan-suc fuel expected buf, scan_step-mc4e buf here) (ground (arith, taken whole)),
  )
    where
      here : detect_frame buf ≡ ok (some (length f, 15, some serial))
      here = sym (detect_frame-append buf tail long) ∙ ap detect_frame same ∙ frame.found rest

      taken : length f ≤ length buf → take (length f) buf ≡ f
      taken whole =
          sym (take-append_le (length f) buf tail whole)
          ∙ ap (take (length f)) same
          ∙ take-append_length (length f) f rest refl

-- The frames before the one awaited, each with another serial number.
abbrev AllStale : ℕ → List (Bytes × ℕ) → Type 0
AllStale expected = All (λ p. IsMc4eFrame p.0 p.1 × (p.1 ≢ expected))

abbrev pub bytes_of : List (Bytes × ℕ) → Bytes
bytes_of [] = []
bytes_of ((f, serial) ∷ l) = f ++ bytes_of l

-- Late responses to earlier requests are skipped: behind any MC4E frames with other serial
-- numbers the inner loop returns the frame with the expected one, which is not 0, whatever
-- follows it, with more fuel than there are frames before it.
pub scan_stale :
    (stale : List (Bytes × ℕ)) {f : Bytes} {expected : ℕ} (fuel : ℕ) (rest : Bytes)
    → AllStale expected stale
    → IsMc4eFrame f expected
    → expected ≢ 0
    → length stale < fuel
    → scan fuel expected (bytes_of stale ++ (f ++ rest)) ≡ delivered f
scan_stale stale zero rest h frame n0 enough = absurd (omega arith)
scan_stale [] {f} {expected} (suc fuel) rest h frame n0 enough =
    (scan_prefix frame expected fuel (f ++ rest) [] rest (append-nil (f ++ rest))
        (omega (arith, length-append f rest, frame.has_header)) (inr refl)).1
      (omega (arith, length-append f rest))
scan_stale ((g, serial) ∷ stale) {f} {expected} (suc fuel) rest h frame n0 enough =
    rw (append_assoc g (bytes_of stale) (f ++ rest)) (
      scan_stale_step h.0.0 expected fuel (bytes_of stale ++ (f ++ rest)) n0 h.0.1
      ∙ scan_stale stale fuel rest h.1 frame n0 (omega arith))

-- No read is empty.
abbrev NonEmpty : Incoming → Type 0
NonEmpty closed = Unit
NonEmpty (broken e) = Unit
NonEmpty (chunk [] rest) = ⊥
NonEmpty (chunk (b ∷ bs) rest) = NonEmpty rest

-- The stream after an exchange that returned `f`.
abbrev pub Returns : Bytes → Io → Type 0
Returns f io = (stream : TcpStream) × (io ≡ done f stream)

module _ (writes : List (Option String)) {f : Bytes} {serial : ℕ} (frame : IsMc4eFrame f serial)
    (expected : ℕ) (mine : (expected ≡ 0) ⊎ (serial ≡ expected)) (rest : Bytes) where
  receive_short :
      (buf : Bytes) (io : Io) → length buf < length f → buf ++ [] ≡ f ++ rest → Returns f io
  receive_short buf io short same =
      absurd (omega (arith, ap (length {A = ℕ}) same, length-append buf [], length-append f rest))

  receive_step :
      (buf tail : Bytes) (after : Incoming)
      → buf ++ tail ≡ f ++ rest
      → 15 ≤ length buf
      → (length buf < length f → Returns f (receive writes expected buf after))
      → Returns f (receive_on writes expected after (scan (suc (length buf)) expected buf))
  unfolding receive_on
  receive_step buf tail after same long next = elim (Bool-cases (ltb (length buf) (length f))) [
    | inl short ↦
        rw
          ((scan_prefix frame expected (length buf) buf tail rest same long mine).0
            (ltb→lt _ _ short))
          (next (ltb→lt _ _ short))
    | inr whole ↦ (
      record { writes = writes; incoming = after },
      rw ((scan_prefix frame expected (length buf) buf tail rest same long mine).1 (ground arith)),
    )
  ]

  receive_started :
      (buf : Bytes) (incoming : Incoming)
      → NonEmpty incoming
      → buf ++ received incoming ≡ f ++ rest
      → 15 ≤ length buf
      → length buf < length f
      → Returns f (receive writes expected buf incoming)
  receive_started buf closed n same long short = receive_short buf _ short same
  receive_started buf (broken e) n same long short = receive_short buf _ short same
  receive_started buf (chunk [] after) n same long short = absurd n
  receive_started buf (chunk (b ∷ bs) after) n same long short =
      let same' : (buf ++ (b ∷ bs)) ++ received after ≡ f ++ rest =
        append_assoc buf (b ∷ bs) (received after) ∙ same in
      let long' : 15 ≤ length (buf ++ (b ∷ bs)) = omega (arith, length-append buf (b ∷ bs)) in
      rw (receive-chunk writes expected buf b bs after) (
        receive_step (buf ++ (b ∷ bs)) (received after) after same' long'
          (λ short'. receive_started (buf ++ (b ∷ bs)) after n same' long' short'))

-- An MC4E response with the expected serial number, or any if 0 is expected, is returned after a
-- write that works, in however many reads it comes and whatever comes behind it, if no read is
-- empty and the first one has its first 15 bytes.
pub perform_stream_io_chunks :
    (writes : List (Option String)) (c : Bytes) (after : Incoming) {f : Bytes} {serial : ℕ}
    (expected : ℕ) (rest : Bytes)
    → IsMc4eFrame f serial
    → (expected ≡ 0) ⊎ (serial ≡ expected)
    → NonEmpty (chunk c after)
    → c ++ received after ≡ f ++ rest
    → 15 ≤ length c
    → Returns f
        (perform_stream_io (record { writes = none ∷ writes; incoming = chunk c after }) expected)
unfolding perform_stream_io write_then
perform_stream_io_chunks writes [] after expected rest frame mine n same long = absurd n
perform_stream_io_chunks writes (b ∷ bs) after expected rest frame mine n same long =
    rw (receive-chunk writes expected [] b bs after) (
      receive_step writes frame expected mine rest (b ∷ bs) (received after) after same long
        (λ short. receive_started writes frame expected mine rest (b ∷ bs) after n same long short))
