-- ===== src/Transport/Scan.antt =====
-- The inner loop: it ends, it reads in range, and a frame that it returns stands in the buffer.
use melsec_mc.Prelude.{
  ℕ, zero, suc, ◌≤◌, ◌<◌, ◌≡◌, ◌≢◌, ◌⊎◌, inl, inr, Option, none, some, [], ◌++◌, refl, sym, ◌∙◌, ap,
  true, ◌||◌, arith, length, take, drop, length-drop, length-take, take-append-drop, append_assoc,
  All-drop, ltb, ◌==◌, Bool-cases, get_or-append, All-append_right, subst,
}
use mathlib.Core.Option
use melsec_mc.Error.{Result, ok, err, panic}
use melsec_mc.Bytes.{Bytes, IsByte, IsBytes}
use melsec_mc.McFrame.{Detected, detect_frame}
use melsec_mc.McFrame.Detect.{starts_mc4e}
use melsec_mc.McFrame.Bounds.{
  IsDetected, detect_frame-IsDetected, detect_frame-ne-panic, detect_frame-err,
}
use melsec_mc.Transport.{
  ScanStep, skip, deliver, wait, crash, Scanned, delivered, pending, crashed, out_of_fuel,
  scan_found, scan_detected, scan_step, scan, max_frame_len,
}

-- What a round knows when it skips or delivers.
abbrev StepOk : ℕ → Bytes → ScanStep → Type 0
StepOk expected buf (skip n) = (1 ≤ n) × (n ≤ length buf)
StepOk expected buf (deliver n) =
    (n ≤ length buf)
    × (n ≤ max_frame_len)
    × (header_len : ℕ) × (serial : Option ℕ) × (detect_frame buf
        ≡ ok (some (n, header_len, serial)))
    × ((expected ≡ 0) ⊎ (Option.get_or serial 0 ≡ expected))
StepOk expected buf wait = Unit
StepOk expected buf crash = ⊥

scan_found-StepOk :
    (expected : ℕ) (buf : Bytes) (frame_len header_len : ℕ) (serial : Option ℕ)
    → IsBytes buf
    → detect_frame buf ≡ ok (some (frame_len, header_len, serial))
    → StepOk expected buf (scan_found expected buf frame_len serial)
unfolding scan_found
scan_found-StepOk expected buf n h s bytes e =
    let d = detect_frame-IsDetected buf n h s bytes e in
    elim (Bool-cases (n == 0 || ltb max_frame_len n)) [
      | inl large ↦ rw large (omega (arith, d.header_present, d.header_ge))
      | inr small ↦ rw small (elim (Bool-cases (ltb (length buf) n)) [
        | inl short ↦ rw short tt
        | inr whole ↦ rw whole (elim (Bool-cases (expected == 0 || Option.get_or s 0 == expected)) [
          | inl mine ↦ rw mine (ground arith, ground arith, h, s, e, ground arith)
          | inr other ↦ rw other (ground (arith, d.header_ge, d.frame_ge_header))
        ])
      ])
    ]

scan_detected-StepOk :
    (expected : ℕ) (buf : Bytes) (d : Result Detected)
    → IsBytes buf
    → detect_frame buf ≡ d
    → StepOk expected buf (scan_detected expected buf d)
unfolding scan_detected
scan_detected-StepOk expected buf (ok (some (n, h, s))) bytes e =
    scan_found-StepOk expected buf n h s bytes e
scan_detected-StepOk expected buf (ok none) bytes e = tt
scan_detected-StepOk expected buf (err x) bytes e =
    let m = detect_frame-err buf x e in ground (arith, m)
scan_detected-StepOk expected buf panic bytes e = absurd (detect_frame-ne-panic buf e)

scan_step-StepOk :
    (expected : ℕ) (buf : Bytes) → IsBytes buf → StepOk expected buf (scan_step expected buf)
unfolding scan_step
scan_step-StepOk expected buf bytes =
    scan_detected-StepOk expected buf (detect_frame buf) bytes refl

-- `frame` stands in `buf`, is found there with just its own length, at most 65535, and has the
-- expected serial number, if that is not 0.
pub record IsDelivered (expected : ℕ) (buf frame : Bytes) : Type 0 where
  pub before : Bytes
  pub after : Bytes
  pub stands : buf ≡ before ++ (frame ++ after)
  pub header_len : ℕ
  pub serial : Option ℕ
  pub found : detect_frame (frame ++ after) ≡ ok (some (length frame, header_len, serial))
  pub small : length frame ≤ max_frame_len
  pub mine : (expected ≡ 0) ⊎ (Option.get_or serial 0 ≡ expected)

-- What is left of the buffer is its end.
pub record IsPending (buf left : Bytes) : Type 0 where
  pub dropped : Bytes
  pub ends : buf ≡ dropped ++ left

abbrev pub ScanOk : ℕ → Bytes → Scanned → Type 0
ScanOk expected buf (delivered frame) = IsDelivered expected buf frame
ScanOk expected buf (pending left) = IsPending buf left
ScanOk expected buf crashed = ⊥
ScanOk expected buf out_of_fuel = ⊥

ScanOk-drop :
    (n expected : ℕ) (buf : Bytes) (r : Scanned)
    → ScanOk expected (drop n buf) r
    → ScanOk expected buf r
ScanOk-drop n expected buf (delivered frame) d = record {
  before = take n buf ++ d.before;
  after = d.after;
  stands =
      sym (take-append-drop n buf)
      ∙ ap (λ t. take n buf ++ t) d.stands
      ∙ sym (append_assoc (take n buf) d.before (frame ++ d.after));
  header_len = d.header_len;
  serial = d.serial;
  found = d.found;
  small = d.small;
  mine = d.mine;
}
ScanOk-drop n expected buf (pending left) d = record {
  dropped = take n buf ++ d.dropped;
  ends =
      sym (take-append-drop n buf)
      ∙ ap (λ t. take n buf ++ t) d.ends
      ∙ sym (append_assoc (take n buf) d.dropped left);
}
ScanOk-drop n expected buf crashed d = d
ScanOk-drop n expected buf out_of_fuel d = d

unfoldable pub scan_on : ℕ → ℕ → Bytes → ScanStep → Scanned
scan_on fuel expected buf (skip n) = scan fuel expected (drop n buf)
scan_on fuel expected buf (deliver n) = delivered (take n buf)
scan_on fuel expected buf wait = pending buf
scan_on fuel expected buf crash = crashed

pub scan-suc :
    (fuel expected : ℕ) (buf : Bytes)
    → scan (suc fuel) expected buf ≡ scan_on fuel expected buf (scan_step expected buf)
unfolding scan scan_on
scan-suc fuel expected buf = ground arith

length-take_le : (n : ℕ) (buf : Bytes) → n ≤ length buf → length (take n buf) ≡ n
length-take_le n buf h = omega (arith, length-take n buf)

module _ (fuel expected : ℕ) (buf : Bytes) where
  -- The frame that a round delivers.
  deliver-IsDelivered :
      (n : ℕ) → StepOk expected buf (deliver n) → IsDelivered expected buf (take n buf)
  deliver-IsDelivered n (fits, small, header_len, serial, e, mine) = record {
    before = [];
    after = drop n buf;
    stands = sym (take-append-drop n buf);
    header_len = header_len;
    serial = serial;
    found = rw (take-append-drop n buf, length-take_le n buf fits) e;
    small = rw (length-take_le n buf fits) small;
    mine = mine;
  }

  scan_on-ScanOk :
      (step : ScanStep)
      → StepOk expected buf step
      → ((n : ℕ)
          → 1 ≤ n
          → n ≤ length buf
          → ScanOk expected (drop n buf) (scan fuel expected (drop n buf)))
      → ScanOk expected buf (scan_on fuel expected buf step)
  unfolding scan_on
  scan_on-ScanOk (skip n) h ih =
      ScanOk-drop n expected buf (scan fuel expected (drop n buf)) (ih n h.0 h.1)
  scan_on-ScanOk (deliver n) h ih = deliver-IsDelivered n h
  scan_on-ScanOk wait h ih = record { dropped = []; ends = refl }
  scan_on-ScanOk crash h ih = h

-- On a buffer of bytes, with more fuel than it has bytes, the inner loop ends without a read out
-- of range. A frame that it returns stands in the buffer, is found there with its own length, at
-- most 65535, and has the expected serial number, unless 0 is expected; else what is left of the
-- buffer is an end of it.
pub scan-ScanOk :
    (fuel expected : ℕ) (buf : Bytes)
    → length buf < fuel
    → IsBytes buf
    → ScanOk expected buf (scan fuel expected buf)
scan-ScanOk zero expected buf h bytes = absurd (omega arith)
scan-ScanOk (suc fuel) expected buf h bytes = rw (scan-suc fuel expected buf) (
    scan_on-ScanOk fuel expected buf (scan_step expected buf) (scan_step-StepOk expected buf bytes)
      λ n p q.
        scan-ScanOk fuel expected (drop n buf) (omega (arith, length-drop n buf))
          (All-drop IsByte n buf bytes))

serial_starts_mc4e :
    (expected : ℕ) (frame after : Bytes) (header_len : ℕ) (serial : Option ℕ)
    → IsDetected (frame ++ after) (length frame) header_len serial
    → expected ≢ 0
    → (expected ≡ 0) ⊎ (Option.get_or serial 0 ≡ expected)
    → starts_mc4e frame ≡ true
serial_starts_mc4e expected frame after h s d ne mine =
    elim (Bool-cases (starts_mc4e (frame ++ after))) [
      | inl m ↦
          let long : 15 ≤ length frame = omega (arith, (d.has_serial m).0, d.frame_ge_header) in
          ground (arith, get_or-append frame after 0 0, m)
      | inr m ↦ absurd (ground (arith, (d.no_serial m).1))
    ]

-- A frame that is returned while a serial number other than 0 is expected starts as an MC4E
-- frame.
pub IsDelivered-starts_mc4e :
    (expected : ℕ) (buf frame : Bytes)
    → IsBytes buf
    → expected ≢ 0
    → IsDelivered expected buf frame
    → starts_mc4e frame ≡ true
IsDelivered-starts_mc4e expected buf frame bytes ne d =
    let rest_bytes : IsBytes (frame ++ d.after) =
      All-append_right IsByte d.before (frame ++ d.after) (subst IsBytes d.stands bytes) in
    serial_starts_mc4e expected frame d.after d.header_len d.serial
      (detect_frame-IsDetected (frame ++ d.after) (length frame) d.header_len d.serial rest_bytes
        d.found)
      ne d.mine
