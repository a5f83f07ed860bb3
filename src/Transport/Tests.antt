-- ===== src/Transport/Tests.antt =====
-- Exchanges at which the theorems on transport.rs apply.
use melsec_mc.Prelude.{
  drop, String, List, ℕ, ◌≤◌, ◌<◌, ◌≡◌, none, some, inr, [], ◌∷◌, ◌++◌, refl, arith, take, true,
  ◌∙◌,
}
use melsec_mc.Error.{ok}
use melsec_mc.Bytes.{Bytes}
use melsec_mc.McDefine.{mc4e, mc3e, default_route}
use melsec_mc.McDefine.Route.{default_route-IsRoute}
use melsec_mc.McFrame.Detect.{starts_mc4e}
use melsec_mc.Request.{McRequest, IsRequest, build_with_format}
use melsec_mc.Config.{default_config}
use melsec_mc.Transport.{scan, delivered, closed, chunk, TcpStream, perform_stream_io, failed}
use melsec_mc.Transport.Stream.{IoOk, perform_stream_io-IoOk}
use melsec_mc.Transport.Chunks.{
  IsMc4eFrame, build_mc4e-IsMc4eFrame, scan_stale, bytes_of, Returns, perform_stream_io_chunks,
}
use melsec_mc.Transport.Partial.{perform_stream_io_partial}
use melsec_mc.Transport.Tcp.{
  connected, resolved, TargetConns, try_remotes, try_cached, send_resolved, send_looked_up,
  send_and_recv_tcp,
}
use melsec_mc.Transport.Tcp.Pool.{IsSent, send_and_recv_tcp-IsSent, serial_of, expected_serial_lem}
use melsec_mc.Transport.Mc3e.{send_and_recv_tcp_mc3e}
use melsec_mc.Transport.Udp.{
  Datagrams, recv_error, datagram, Attempt, Remote, recv_loop, send_and_recv_udp,
}
use melsec_mc.Transport.Udp as Udp
use melsec_mc.Transport.Udp.Loop.{
  ReceivedOk, recv_loop-datagram, recv_loop_after_mismatch, send_and_recv_udp-ReceivedOk,
}

-- A response with serial number `s` and two bytes of data.
abbrev answer : ℕ → McRequest
answer s = record {
  subheader = (0xD4, 0x00);
  access_route = default_route;
  request_data_len = 4;
  monitoring_timer = 0;
  request_data = 7 ∷ 8 ∷ [];
  serial_number = s;
}

abbrev frame : ℕ → Bytes
frame s = build_with_format (answer s) mc4e

answer-IsRequest : (s : ℕ) → s < 65536 → IsRequest (answer s)
answer-IsRequest s h = record {
  subheader_bytes = omega arith;
  route = default_route-IsRoute;
  data_len = refl;
  data_fits = omega arith;
  timer_word = omega arith;
  data_bytes = omega arith;
  serial_word = h;
}

frame-IsMc4eFrame : (s : ℕ) → s < 65536 → IsMc4eFrame (frame s) s
frame-IsMc4eFrame s h =
    build_mc4e-IsMc4eFrame (answer s) (answer-IsRequest s h) (inr refl) (omega arith)

abbrev some_bytes : Bytes
some_bytes = 0xD4 ∷ 0 ∷ 2 ∷ 0 ∷ 0 ∷ 0 ∷ 0 ∷ 0xFF ∷ 0xFF ∷ 3 ∷ 0 ∷ 3 ∷ 0 ∷ 0 ∷ 0 ∷ 9 ∷ []

abbrev stream : TcpStream
stream = record { writes = none ∷ []; incoming = chunk some_bytes closed }

scan_stale_example :
    scan 2 9 (bytes_of ((frame 8, 8) ∷ []) ++ (frame 9 ++ (1 ∷ []))) ≡ delivered (frame 9)
scan_stale_example =
    scan_stale ((frame 8, 8) ∷ []) 2 (1 ∷ []) ((frame-IsMc4eFrame 8 (omega arith), omega arith), tt)
      (frame-IsMc4eFrame 9 (omega arith)) (omega arith) (omega arith)

perform_stream_io-IoOk_example : IoOk 2 [] (chunk some_bytes closed) (perform_stream_io stream 2)
perform_stream_io-IoOk_example = perform_stream_io-IoOk stream 2 (omega arith)

perform_stream_io_chunks_example : Returns (frame 9) (
    perform_stream_io
      (record {
        writes = none ∷ [];
        incoming = chunk (take 16 (frame 9)) (chunk (8 ∷ 1 ∷ []) closed);
      })
      9)
unfolding build_with_format
perform_stream_io_chunks_example =
    perform_stream_io_chunks [] (take 16 (frame 9)) (chunk (8 ∷ 1 ∷ []) closed) 9 (1 ∷ [])
      (frame-IsMc4eFrame 9 (omega arith)) (inr refl) tt refl (omega arith)

-- The response is whole after the second read, and yet not returned.
perform_stream_io_partial_example :
    (e : String) × (perform_stream_io
        (record {
          writes = none ∷ [];
          incoming = chunk (take 12 (frame 9)) (chunk (drop 12 (frame 9)) closed);
        })
        9
      ≡ failed e)
unfolding build_with_format
perform_stream_io_partial_example =
    perform_stream_io_partial [] 9 9 0 (4 ∷ []) (chunk (drop 12 (frame 9)) closed) (omega arith)
      (omega arith)

abbrev no_conns : TargetConns
no_conns addr = none

send_and_recv_tcp-IsSent_example : IsSent 7 no_conns "plc:5000" (frame 2) (
    send_and_recv_tcp default_config 7
      (resolved (connected stream ∷ []))
      no_conns
      "plc:5000"
      (frame 2))
send_and_recv_tcp-IsSent_example =
    send_and_recv_tcp-IsSent default_config 7 (connected stream ∷ []) no_conns "plc:5000" (frame 2)
      (omega arith) (λ addr. tt)

-- A device that answers an MC3E request in the other format.
abbrev other_format : TcpStream
other_format = record { writes = none ∷ []; incoming = chunk (frame 0xFF00) closed }

other_format_lem : Returns (frame 0xFF00) (perform_stream_io other_format 0xFF00)
unfolding build_with_format
other_format_lem =
    perform_stream_io_chunks [] (frame 0xFF00) closed 0xFF00 []
      (frame-IsMc4eFrame 0xFF00 (omega arith)) (inr refl) tt refl (omega arith)

other_format_sent :
    (send_and_recv_tcp default_config 7
      (resolved (connected other_format ∷ []))
      no_conns
      "plc:5000"
      (build_with_format (answer 2) mc3e)).0
    ≡ ok (frame 0xFF00)
unfolding send_and_recv_tcp send_looked_up try_cached build_with_format send_resolved serial_of
    try_remotes
other_format_sent =
    rw
      (
        expected_serial_lem (build_with_format (answer 2) mc3e),
        send_resolved,
        serial_of,
        other_format_lem.1,
        try_remotes,
      )
      refl

send_and_recv_tcp_mc3e_example : starts_mc4e (frame 0xFF00) ≡ true
unfolding build_with_format
send_and_recv_tcp_mc3e_example =
    send_and_recv_tcp_mc3e default_config 7 (connected other_format ∷ []) no_conns "plc:5000"
      (answer 2) (frame 0xFF00) (omega arith) (λ addr. tt) (omega arith) other_format_sent

second_returned :
    recv_loop 2 65535 (datagram (0 ∷ 0 ∷ 1 ∷ 0 ∷ []) (datagram (0 ∷ 0 ∷ 2 ∷ 0 ∷ 7 ∷ []) recv_error))
    ≡ ok (some (0 ∷ 0 ∷ 2 ∷ 0 ∷ []))
unfolding serial_of
second_returned =
    recv_loop-datagram 2 65535 (0 ∷ 0 ∷ 1 ∷ 0 ∷ []) (datagram (0 ∷ 0 ∷ 2 ∷ 0 ∷ 7 ∷ []) recv_error)
    ∙ recv_loop-datagram 2 4 (0 ∷ 0 ∷ 2 ∷ 0 ∷ 7 ∷ []) recv_error

recv_loop_after_mismatch_example : (serial_of (0 ∷ 0 ∷ 2 ∷ 0 ∷ []) ≡ 2) × (4 ≤ 4)
unfolding serial_of
recv_loop_after_mismatch_example =
    recv_loop_after_mismatch 2 65535 (0 ∷ 0 ∷ 1 ∷ 0 ∷ [])
      (datagram (0 ∷ 0 ∷ 2 ∷ 0 ∷ 7 ∷ []) recv_error) (0 ∷ 0 ∷ 2 ∷ 0 ∷ []) (omega arith)
      (omega arith) (omega arith) second_returned

-- A remote that cannot be bound, then one that answers with a late packet and the response.
abbrev remotes : List Remote
remotes =
    record { bind_error = some "in use"; attempts = [] }
    ∷ record {
      bind_error = none;
      attempts =
          record { send_error = none; answers = datagram (frame 1) (datagram (frame 2) recv_error) }
          ∷ [];
    }
    ∷ []

response_received :
    recv_loop 2 65535 (datagram (frame 1) (datagram (frame 2) recv_error)) ≡ ok (some (frame 2))
unfolding build_with_format serial_of
response_received =
    recv_loop-datagram 2 65535 (frame 1) (datagram (frame 2) recv_error)
    ∙ recv_loop-datagram 2 17 (frame 2) recv_error

udp_received :
    send_and_recv_udp default_config (Udp.resolved remotes) "plc:5001" (frame 2) ≡ ok (frame 2)
unfolding Udp.send_and_recv_udp Udp.send_resolved Udp.try_remotes Udp.try_attempts serial_of
    build_with_format
udp_received =
    rw (expected_serial_lem (frame 2))
      (rw (Udp.try_remotes, Udp.try_attempts, response_received) refl)

send_and_recv_udp-ReceivedOk_example :
    (send_and_recv_udp default_config (Udp.resolved remotes) "plc:5001" (frame 2) ≡ ok (frame 2))
    × ReceivedOk
        (serial_of (frame 2))
        (send_and_recv_udp default_config (Udp.resolved remotes) "plc:5001" (frame 2))
send_and_recv_udp-ReceivedOk_example = (
  udp_received,
  send_and_recv_udp-ReceivedOk default_config (Udp.resolved remotes) "plc:5001" (frame 2),
)
