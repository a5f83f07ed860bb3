-- ===== src/Transport.antt =====
-- src/transport.rs: what the TCP and UDP clients share, and the read loop of a TCP stream.
-- A `TcpStream` is the outcomes of the calls that are yet to be made on it, in their order; a
-- timed-out call has its error for an outcome. Logging is left out.
pub mod Scan
pub mod Stream
pub mod Chunks
pub mod Partial
pub mod Tcp
pub mod Udp
pub mod Mc3e
mod Tests
use melsec_mc.Prelude.{
  ℕ, zero, suc, ◌+◌, Option, none, some, String, List, [], ◌∷◌, ◌++◌, Bool, true, false, ◌||◌,
  length, take, drop, ltb, leb, ◌==◌, if◌then◌else◌,
}
use mathlib.Core.Option.{get_or}
use melsec_mc.Error.{Result, ok, err, panic, ◌>>=◌}
use melsec_mc.Bytes.{Bytes, u16_at}
use melsec_mc.McFrame.{Detected, detect_frame}

abbrev pub max_frame_len : ℕ
max_frame_len = 65535

-- Bytes 2 and 3 of the outgoing payload; 0 accepts any response.
pub expected_serial : Bytes → Result ℕ
expected_serial payload = if leb 4 (length payload) then u16_at payload 2 else ok 0

-- What one round of the inner loop does with the buffer: drop bytes and go on, return a frame,
-- or wait for more bytes.
pub data ScanStep : Type 0 where
  skip : ℕ → ScanStep
  deliver : ℕ → ScanStep
  wait : ScanStep
  crash : ScanStep

scan_found : ℕ → Bytes → ℕ → Option ℕ → ScanStep
scan_found expected buf frame_len serial_opt =
    if frame_len == 0 || ltb max_frame_len frame_len
    then skip 1
    else if ltb (length buf) frame_len
    then wait
    else if expected == 0 || get_or serial_opt 0 == expected
    then deliver frame_len
    else skip frame_len

scan_detected : ℕ → Bytes → Result Detected → ScanStep
scan_detected expected buf (ok (some (frame_len, header_len, serial_opt))) =
    scan_found expected buf frame_len serial_opt
scan_detected expected buf (ok none) = wait
scan_detected expected buf (err e) = skip 1
scan_detected expected buf panic = crash

pub scan_step : ℕ → Bytes → ScanStep
scan_step expected buf = scan_detected expected buf (detect_frame buf)

-- The inner loop, on fuel. `delivered` has the frame, `pending` the buffer that is left.
pub data Scanned : Type 0 where
  delivered : Bytes → Scanned
  pending : Bytes → Scanned
  crashed : Scanned
  out_of_fuel : Scanned

pub scan : ℕ → ℕ → Bytes → Scanned
scan zero expected buf = out_of_fuel
scan (suc fuel) expected buf = elim (scan_step expected buf) [
  | skip n ↦ scan fuel expected (drop n buf)
  | deliver n ↦ delivered (take n buf)
  | wait ↦ pending buf
  | crash ↦ crashed
]

-- The outcomes of the reads on a stream. The script ends when the peer closes or a read fails.
pub data Incoming : Type 0 where
  closed : Incoming
  broken : String → Incoming
  chunk : Bytes → Incoming → Incoming

-- The outcomes of the writes; `some e` is a failed write, and so is one past the end.
pub record TcpStream : Type 0 where
  pub writes : List (Option String)
  pub incoming : Incoming

pub data Io : Type 0 where
  done : Bytes → TcpStream → Io
  failed : String → Io
  io_crashed : Io

abbrev closed_error : String
closed_error = "remote closed without producing matching frame"

-- The outer loop. Each round scans the whole buffer, with fuel for each of its bytes. What the
-- buffer holds behind a returned frame is dropped with it.
pub receive : List (Option String) → ℕ → Bytes → Incoming → Io
receive writes expected buf closed = failed closed_error
receive writes expected buf (broken e) = failed e
receive writes expected buf (chunk [] rest) = failed closed_error
receive writes expected buf (chunk (b ∷ bs) rest) =
    elim (scan (suc (length (buf ++ (b ∷ bs)))) expected (buf ++ (b ∷ bs))) [
      | delivered frame ↦ done frame (record { writes = writes; incoming = rest })
      | pending left ↦ receive writes expected left rest
      | crashed ↦ io_crashed
      | out_of_fuel ↦ io_crashed
    ]

write_then : List (Option String) → ℕ → Incoming → Io
write_then [] expected incoming = failed "broken pipe"
write_then (some e ∷ writes) expected incoming = failed e
write_then (none ∷ writes) expected incoming = receive writes expected [] incoming

-- `perform_stream_io`; the payload is what the write sends, and only its outcome comes back.
pub perform_stream_io : TcpStream → ℕ → Io
perform_stream_io stream expected = write_then stream.writes expected stream.incoming
