-- ===== src/Transport/Mc3e.antt =====
-- MC3E requests over TCP.
use melsec_mc.Prelude.{ℕ, ◌+◌, ◌*◌, ◌≡◌, ◌≢◌, List, String, arith, length, All, true, le→leb, subst}
use melsec_mc.Error.{ok}
use melsec_mc.Bytes.{Bytes}
use melsec_mc.McDefine.{mc3e}
use melsec_mc.McFrame.Detect.{starts_mc4e}
use melsec_mc.Request.{McRequest, build_with_format}
use melsec_mc.Config.{Config}
use melsec_mc.Transport.Scan.{IsDelivered-starts_mc4e}
use melsec_mc.Transport.Tcp.{Connect, resolved, TargetConns, send_and_recv_tcp}
use melsec_mc.Transport.Tcp.Pool.{
  ConnectBytes, PoolBytes, OutcomeOk, send_and_recv_tcp-IsSent, serial_of,
}

-- The "serial number" of an MC3E request is made of its route's first two bytes.
serial_of-build_mc3e :
    (r : McRequest)
    → serial_of (build_with_format r mc3e)
      ≡ r.access_route.network_number + r.access_route.pc_number * 256
unfolding serial_of build_with_format
serial_of-build_mc3e r = rw (le→leb 4 (length (build_with_format r mc3e)) (omega arith))

-- With a route other than network 0 and PC 0, such as the default one, an MC3E request sent over
-- TCP, on streams of bytes, gets no response but one that starts as an MC4E frame: responses in
-- its own format are dropped.
pub send_and_recv_tcp_mc3e :
    (config : Config) (now : ℕ) (remotes : List Connect) (conns : TargetConns) (addr : String)
    (r : McRequest) (frame : Bytes)
    → All ConnectBytes remotes
    → PoolBytes conns
    → r.access_route.network_number + r.access_route.pc_number * 256 ≢ 0
    → (send_and_recv_tcp config now (resolved remotes) conns addr (build_with_format r mc3e)).0
      ≡ ok frame
    → starts_mc4e frame ≡ true
send_and_recv_tcp_mc3e config now remotes conns addr r frame h pool ne e =
    let payload = build_with_format r mc3e in
    let sent = send_and_recv_tcp-IsSent config now remotes conns addr payload h pool in
    let entry = (send_and_recv_tcp config now (resolved remotes) conns addr payload).1 addr in
    let good : OutcomeOk now (serial_of payload) (ok frame, entry) =
      subst (λ x. OutcomeOk now (serial_of payload) (x, entry)) e sent.outcome in
    let a = good.0 in
    IsDelivered-starts_mc4e (serial_of payload) a.answer.window frame a.answer.window_bytes
      (rw (serial_of-build_mc3e r) ne) a.answer.answers
