-- ===== src/Response/Parse.antt =====
-- What `parse_mc_payload` returns.
use melsec_mc.Prelude.{
  ℕ, ◌+◌, ◌-◌, ◌≡◌, ◌≢◌, inl, inr, min, arith, length, take, drop, take-min, length-drop, leb,
  leb→le, take-nil, drop-length_le, Bool-cases,
}
use melsec_mc.Error.{ok, panic, bind-ne-panic}
use melsec_mc.Bytes.{Bytes, IsBytes}
use melsec_mc.Bytes.Reads.{slice-le}
use melsec_mc.McFrame.{FrameParseResult, parse_frame}
use melsec_mc.McFrame.Agree.{parse_frame-ne-panic}
use melsec_mc.Request.{data_slice}
use melsec_mc.Response.{response_of, parse_mc_payload}

-- The data are the `data_bytes` bytes from `data_offset` on, or as many as there are.
data_slice_lem :
    (p : Bytes) (pr : FrameParseResult)
    → data_slice p pr ≡ ok (take pr.data_bytes (drop pr.data_offset p))
unfolding data_slice
data_slice_lem p pr = elim (Bool-cases (leb pr.data_offset (length p))) [
  | inl within ↦
      let h = leb→le pr.data_offset (length p) within in
      let hi = min (length p) (pr.data_offset + pr.data_bytes) in
      rw (
        within,
        slice-le p pr.data_offset hi (omega arith) (omega arith),
        take-min pr.data_bytes (hi - pr.data_offset) (drop pr.data_offset p)
            (omega (arith, length-drop pr.data_offset p)),
      )
  | inr beyond ↦
      rw (beyond, drop-length_le pr.data_offset p (ground arith), take-nil {A = ℕ} pr.data_bytes)
]

pub parse_mc_payload-response_of :
    (p : Bytes) (pr : FrameParseResult)
    → parse_frame p ≡ ok pr
    → parse_mc_payload p ≡ ok (response_of pr (take pr.data_bytes (drop pr.data_offset p)))
unfolding parse_mc_payload
parse_mc_payload-response_of p pr e = rw (e, data_slice_lem p pr)

-- No payload of bytes makes `parse_mc_payload` read out of range.
pub parse_mc_payload-ne-panic : (p : Bytes) → IsBytes p → parse_mc_payload p ≢ panic
unfolding parse_mc_payload
parse_mc_payload-ne-panic p bytes =
    bind-ne-panic (parse_frame p) _ (parse_frame-ne-panic p bytes)
      λ pr. rw (data_slice_lem p pr) (cc)
