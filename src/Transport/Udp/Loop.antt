-- ===== src/Transport/Udp/Loop.antt =====
-- What a UDP exchange returns.
use melsec_mc.Prelude.{
  ℕ, zero, suc, ◌≤◌, ◌≡◌, ◌≢◌, ◌⊎◌, inl, inr, Option, none, some, String, List, [], ◌∷◌, ◌||◌, sym,
  arith, length, length-take, take-length_le, take, ◌==◌, if◌then◌else◌, Bool-cases, subst, ◌∙◌,
}
use melsec_mc.Error.{Result, ok, err, panic}
use melsec_mc.Bytes.{Bytes}
use melsec_mc.Bytes.Reads.{u16_at-lt}
use melsec_mc.Config.{Config}
use melsec_mc.Transport.Tcp.Pool.{serial_of, expected_serial_lem}
use melsec_mc.Transport.Udp.{
  Datagrams, recv_error, datagram, Attempt, Remote, Resolved, resolved, unresolved, packet_serial,
  recv_loop, try_attempts, try_remotes, send_resolved, send_and_recv_udp,
}

packet_serial_lem : (buf : Bytes) → packet_serial buf ≡ ok (serial_of buf)
unfolding packet_serial serial_of
packet_serial_lem buf = ground (arith, u16_at-lt buf 2)

-- A packet that is returned has the expected serial number, unless that is 0, and fits the room.
abbrev PacketOk : ℕ → ℕ → Result (Option Bytes) → Type 0
PacketOk expected room (ok (some buf)) =
    ((expected ≡ 0) ⊎ (serial_of buf ≡ expected)) × (length buf ≤ room)
PacketOk expected room (ok none) = Unit
PacketOk expected room (err e) = ⊥
PacketOk expected room panic = ⊥

PacketOk-mono :
    (expected small room : ℕ) (r : Result (Option Bytes))
    → small ≤ room
    → PacketOk expected small r
    → PacketOk expected room r
PacketOk-mono expected small room (ok (some buf)) h p = (p.0, omega (arith, p.1))
PacketOk-mono expected small room (ok none) h p = tt
PacketOk-mono expected small room (err e) h p = p
PacketOk-mono expected small room panic h p = p

pub recv_loop-datagram :
    (expected room : ℕ) (d : Bytes) (rest : Datagrams)
    → recv_loop expected room (datagram d rest) ≡ (
        if expected == 0 || serial_of (take room d) == expected
        then ok (some (take room d))
        else recv_loop expected (length (take room d)) rest)
unfolding recv_loop
recv_loop-datagram expected room d rest = rw (packet_serial_lem (take room d))

recv_loop-PacketOk :
    (expected room : ℕ) (ds : Datagrams) → PacketOk expected room (recv_loop expected room ds)
recv_loop-PacketOk expected room recv_error = unfold recv_loop in tt
recv_loop-PacketOk expected room (datagram d rest) =
    rw (recv_loop-datagram expected room d rest)
      (elim (Bool-cases (expected == 0 || serial_of (take room d) == expected)) [
        | inl mine ↦ rw mine (ground arith, omega (arith, length-take room d))
        | inr other ↦ rw other (
            PacketOk-mono expected (length (take room d)) room _ (omega (arith, length-take room d))
              (recv_loop-PacketOk expected (length (take room d)) rest))
      ])

-- A packet that fits the buffer and has another serial number than the expected one, which is not
-- 0, is discarded, and leaves no more room than its own length: the response that is returned
-- after it is cut to that.
pub recv_loop_after_mismatch :
    (expected room : ℕ) (d : Bytes) (rest : Datagrams) (buf : Bytes)
    → expected ≢ 0
    → serial_of d ≢ expected
    → length d ≤ room
    → recv_loop expected room (datagram d rest) ≡ ok (some buf)
    → (serial_of buf ≡ expected) × (length buf ≤ length d)
recv_loop_after_mismatch expected room d rest buf n0 ne fits e =
    let p : PacketOk expected (length d) (ok (some buf)) =
      subst (PacketOk expected (length d)) (sym skipped ∙ e)
        (recv_loop-PacketOk expected (length d) rest) in
    (ground (arith, p.0), p.1)
  where
    skipped : recv_loop expected room (datagram d rest) ≡ recv_loop expected (length d) rest
    skipped =
        rw (recv_loop-datagram expected room d rest, take-length_le room d fits) (ground arith)

-- A buffer that answers.
abbrev Answers : ℕ → Bytes → Type 0
Answers expected buf = ((expected ≡ 0) ⊎ (serial_of buf ≡ expected)) × (length buf ≤ 65535)

abbrev pub ReceivedOk : ℕ → Result Bytes → Type 0
ReceivedOk expected (ok buf) = Answers expected buf
ReceivedOk expected (err e) = Unit
ReceivedOk expected panic = ⊥

module _ (expected : ℕ) where
  try_attempts-PacketOk :
      (left : ℕ) (attempts : List Attempt)
      → PacketOk expected 65535 (try_attempts expected left attempts)
  unfolding try_attempts
  try_attempts-PacketOk zero attempts = tt
  try_attempts-PacketOk (suc left) [] = tt
  try_attempts-PacketOk (suc left) (a ∷ attempts) =
      ground
        (arith, recv_loop-PacketOk expected 65535 a.answers, try_attempts-PacketOk left attempts)

  try_remotes-ReceivedOk :
      (addr : String) (max_attempts : ℕ) (remotes : List Remote)
      → ReceivedOk expected (try_remotes addr expected max_attempts remotes)
  unfolding try_remotes
  try_remotes-ReceivedOk addr max_attempts [] = tt
  try_remotes-ReceivedOk addr max_attempts (r ∷ remotes) = ground (
    arith,
    try_attempts-PacketOk max_attempts r.attempts,
    try_remotes-ReceivedOk addr max_attempts remotes,
  )

-- A UDP exchange never reads out of range, and a packet that it returns has at most 65535 bytes
-- and the payload's serial number, unless that is 0.
pub send_and_recv_udp-ReceivedOk :
    (config : Config) (lookup : Resolved) (addr : String) (payload : Bytes)
    → ReceivedOk (serial_of payload) (send_and_recv_udp config lookup addr payload)
unfolding send_and_recv_udp send_resolved
send_and_recv_udp-ReceivedOk config (unresolved e) addr payload = tt
send_and_recv_udp-ReceivedOk config (resolved remotes) addr payload =
    rw (expected_serial_lem payload)
      (try_remotes-ReceivedOk (serial_of payload) addr config.melsec_udp_recv_attempts remotes)
