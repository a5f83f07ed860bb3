-- ===== src/McFrame/Tests.antt =====
-- Frames at which the theorems on mc_frame.rs apply.
use melsec_mc.Prelude.{some, [], ◌∷◌, ◌≡◌, ◌∙◌, refl, arith}
use melsec_mc.Error.{ok}
use melsec_mc.Bytes.{Bytes}
use melsec_mc.McFrame.{detect_frame, parse_frame}
use melsec_mc.McFrame.Detect.{layout, layout_mc4e, detect_frame-layout}
use melsec_mc.McFrame.Bounds.{IsDetected, detect_frame-IsDetected}
use melsec_mc.McFrame.Agree.{Agree, parse_frame-detect_frame}

-- An MC4E response with serial number 0x1234, end code 0 and two bytes of data.
abbrev response : Bytes
response =
    0xD4 ∷ 0x00 ∷ 0x34 ∷ 0x12 ∷ 0 ∷ 0 ∷ 0x00 ∷ 0xFF ∷ 0xFF ∷ 0x03 ∷ 0x00 ∷ 4 ∷ 0 ∷ 0 ∷ 0 ∷ 7 ∷ 8
    ∷ []

response_found : detect_frame response ≡ ok (some (17, 15, some 0x1234))
unfolding layout layout_mc4e
response_found = detect_frame-layout response ∙ refl

parse_frame-detect_frame_example : Agree response (detect_frame response) (parse_frame response)
parse_frame-detect_frame_example = parse_frame-detect_frame response (omega arith)

detect_frame-IsDetected_example : IsDetected response 17 15 (some 0x1234)
detect_frame-IsDetected_example =
    detect_frame-IsDetected response 17 15 (some 0x1234) (omega arith) response_found
