-- ===== src/Request/Build.antt =====
-- The length of a built frame, and what `detect_frame` finds in it.
use melsec_mc.Prelude.{◌+◌, ◌≡◌, ◌≢◌, ◌⊎◌, none, some, ◌++◌, arith, length, ◌∙◌}
use melsec_mc.Error.{ok}
use melsec_mc.Bytes.{Bytes, IsBytes}
use melsec_mc.McDefine.{mc4e, mc3e}
use melsec_mc.McFrame.{detect_frame}
use melsec_mc.McFrame.Detect.{layout, layout_mc4e, layout_subheader, detect_frame-layout}
use melsec_mc.Request.{McRequest, IsRequest, build_with_format}

pub length-build_mc4e :
    (r : McRequest) → length (build_with_format r mc4e) ≡ length r.request_data + 15
unfolding build_with_format
length-build_mc4e r = omega arith

pub length-build_mc3e :
    (r : McRequest) → length (build_with_format r mc3e) ≡ length r.request_data + 11
unfolding build_with_format
length-build_mc3e r = omega arith

pub build_mc4e-IsBytes : (r : McRequest) → IsRequest r → IsBytes (build_with_format r mc4e)
unfolding build_with_format
build_mc4e-IsBytes r h = ground arith

pub build_mc3e-IsBytes : (r : McRequest) → IsRequest r → IsBytes (build_with_format r mc3e)
unfolding build_with_format
build_mc3e-IsBytes r h = ground arith

-- The MC4E frame of a valid request, whatever follows it in the buffer, is found with its own
-- length, its header of 15 bytes and its serial number, if its subheader is that of a request or
-- a response.
pub detect_frame-build_mc4e :
    (r : McRequest) (rest : Bytes)
    → IsRequest r
    → (r.subheader.0 ≡ 0x54) ⊎ (r.subheader.0 ≡ 0xD4)
    → detect_frame (build_with_format r mc4e ++ rest)
      ≡ ok (some (length (build_with_format r mc4e), 15, some r.serial_number))
unfolding build_with_format layout layout_mc4e
detect_frame-build_mc4e r rest h first =
    detect_frame-layout (build_with_format r mc4e ++ rest) ∙ ground arith

-- An MC3E frame with another subheader is found with its own length and no serial number.
detect_frame-build_mc3e :
    (r : McRequest) (rest : Bytes)
    → IsRequest r
    → r.subheader.0 ≢ 0x54
    → r.subheader.0 ≢ 0xD4
    → detect_frame (build_with_format r mc3e ++ rest)
      ≡ ok (some (length (build_with_format r mc3e), 11, none))
unfolding build_with_format layout layout_subheader
detect_frame-build_mc3e r rest h n54 nD4 =
    detect_frame-layout (build_with_format r mc3e ++ rest) ∙ ground arith
