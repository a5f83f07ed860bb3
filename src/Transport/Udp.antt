-- ===== src/Transport/Udp.antt =====
-- `send_and_recv_udp` of src/transport.rs.
pub mod Loop
use melsec_mc.Prelude.{
  ℕ, zero, suc, Option, none, some, String, List, [], ◌∷◌, ◌||◌, length, take, leb, ◌==◌,
  if◌then◌else◌,
}
use melsec_mc.Error.{Result, ok, err, panic, fail, ◌>>=◌, bad_address, failed_to_send_udp}
use melsec_mc.Bytes.{Bytes, u16_at}
use melsec_mc.Config.{Config}
use melsec_mc.Transport.{expected_serial}

-- The datagrams that the calls of `recv_from` would give; a script ends where a call fails or
-- times out.
pub data Datagrams : Type 0 where
  recv_error : Datagrams
  datagram : Bytes → Datagrams → Datagrams

-- An attempt on a socket: whether `send_to` works, and what is received after it.
pub record Attempt : Type 0 where
  pub send_error : Option String
  pub answers : Datagrams

-- A remote address: whether a socket binds, and the attempts made on it.
pub record Remote : Type 0 where
  pub bind_error : Option String
  pub attempts : List Attempt

pub data Resolved : Type 0 where
  resolved : List Remote → Resolved
  unresolved : String → Resolved

-- `buf.truncate(n)` on the `n` bytes that `recv_from` wrote: a datagram is cut to the buffer.
abbrev pub cut : ℕ → Bytes → Bytes
cut room d = take room d

-- The serial number of a packet: bytes 2 and 3, or 0.
pub packet_serial : Bytes → Result ℕ
packet_serial buf = if leb 4 (length buf) then u16_at buf 2 else ok 0

-- The receive loop. The buffer keeps the length of the packet before.
pub recv_loop : ℕ → ℕ → Datagrams → Result (Option Bytes)
recv_loop expected room recv_error = ok none
recv_loop expected room (datagram d rest) = do
  let buf = cut room d
  serial ← packet_serial buf
  let later = recv_loop expected (length buf) rest
  if expected == 0 || serial == expected then ok (some buf) else later

-- Up to `max_attempts` attempts; what is not in the script fails to send.
unfoldable pub try_attempts : ℕ → ℕ → List Attempt → Result (Option Bytes)
try_attempts expected zero attempts = ok none
try_attempts expected (suc left) [] = ok none
try_attempts expected (suc left) (a ∷ attempts) = elim a.send_error [
  | some e ↦ try_attempts expected left attempts
  | none ↦ elim (recv_loop expected 65535 a.answers) [
    | ok (some buf) ↦ ok (some buf)
    | ok none ↦ try_attempts expected left attempts
    | err e ↦ err e
    | panic ↦ panic
  ]
]

unfoldable pub try_remotes : String → ℕ → ℕ → List Remote → Result Bytes
try_remotes addr expected max_attempts [] = fail (failed_to_send_udp addr)
try_remotes addr expected max_attempts (r ∷ remotes) = elim r.bind_error [
  | some e ↦ try_remotes addr expected max_attempts remotes
  | none ↦ elim (try_attempts expected max_attempts r.attempts) [
    | ok (some buf) ↦ ok buf
    | ok none ↦ try_remotes addr expected max_attempts remotes
    | err e ↦ err e
    | panic ↦ panic
  ]
]

unfoldable pub send_resolved : Config → String → Bytes → List Remote → Result Bytes
send_resolved config addr payload remotes = do
  expected ← expected_serial payload
  try_remotes addr expected config.melsec_udp_recv_attempts remotes

unfoldable pub send_and_recv_udp : Config → Resolved → String → Bytes → Result Bytes
send_and_recv_udp config (unresolved e) addr payload = fail (bad_address addr e)
send_and_recv_udp config (resolved remotes) addr payload = send_resolved config addr payload remotes
