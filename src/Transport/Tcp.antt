-- ===== src/Transport/Tcp.antt =====
-- `send_and_recv_tcp` of src/transport.rs, with its pool of one cached connection for each
-- address. The lock on an address is held for the whole call, so calls for one address come one
-- after another. The clock stands still during a call. The address's resolution and the connects
-- are the outcomes of tokio's calls.
pub mod Pool
use melsec_mc.Prelude.{
  ℕ, ◌+◌, ◌*◌, Option, none, some, String, List, [], ◌∷◌, leb, str_eq, if◌then◌else◌,
}
use melsec_mc.Error.{
  Result, ok, err, panic, fail, ◌>>=◌, bad_address, connect_error, connect_timeout,
  failed_to_send_tcp,
}
use melsec_mc.Bytes.{Bytes}
use melsec_mc.Config.{Config}
use melsec_mc.Transport.{
  TcpStream, Io, done, failed, io_crashed, perform_stream_io, expected_serial,
}

-- `lookup_host`: the remote addresses, each with the outcome of connecting to it.
pub data Connect : Type 0 where
  connected : TcpStream → Connect
  refused : String → Connect
  timed_out : String → Connect

pub data Lookup : Type 0 where
  resolved : List Connect → Lookup
  unresolved : String → Lookup

-- A cached stream with the time of its last use, in nanoseconds, under its address.
abbrev pub Entry : Type 0
Entry = Option (TcpStream × ℕ)

abbrev pub TargetConns : Type 0
TargetConns = String → Entry

pub put : TargetConns → String → Entry → TargetConns
put conns addr e other = if str_eq addr other then e else conns other

-- What a call returns and leaves under its address.
abbrev pub Outcome : Type 0
Outcome = Result Bytes × Entry

-- `last_err`, as it is printed with `{:?}`.
abbrev last_error : Option String → List String
last_error none = []
last_error (some e) = e ∷ []

module _ (addr : String) (now serial : ℕ) where
  -- The loop over the remote addresses. A failed connect ends the call; a failed exchange goes
  -- on with the next address.
  unfoldable pub try_remotes : List Connect → Option String → Outcome
  try_remotes [] last_err = (fail (failed_to_send_tcp addr (last_error last_err)), none)
  try_remotes (refused e ∷ remotes) last_err = (fail (connect_error e), none)
  try_remotes (timed_out e ∷ remotes) last_err = (fail (connect_timeout e), none)
  try_remotes (connected stream ∷ remotes) last_err = elim (perform_stream_io stream serial) [
    | done frame stream' ↦ (ok frame, some (stream', now))
    | failed e ↦ try_remotes remotes (some e)
    | io_crashed ↦ (panic, none)
  ]

  -- The cached stream is taken out of the pool and tried first, unless it was idle too long.
  unfoldable pub try_cached : ℕ → List Connect → Entry → Outcome
  try_cached idle remotes none = try_remotes remotes none
  try_cached idle remotes (some (stream, last_used)) =
      if leb now (last_used + idle * 1_000_000_000)
      then elim (perform_stream_io stream serial) [
        | done frame stream' ↦ (ok frame, some (stream', now))
        | failed e ↦ try_remotes remotes (some e)
        | io_crashed ↦ (panic, none)
      ]
      else try_remotes remotes none

unfoldable pub send_resolved : Config → ℕ → String → Bytes → List Connect → Entry → Outcome
send_resolved config now addr payload remotes entry = elim (expected_serial payload) [
  | ok serial ↦ try_cached addr now serial config.melsec_conn_idle_secs remotes entry
  | err e ↦ (err e, entry)
  | panic ↦ (panic, entry)
]

unfoldable pub send_looked_up : Config → ℕ → String → Bytes → Lookup → Entry → Outcome
send_looked_up config now addr payload (unresolved e) entry = (fail (bad_address addr e), entry)
send_looked_up config now addr payload (resolved remotes) entry =
    send_resolved config now addr payload remotes entry

-- `send_and_recv_tcp`, with the pool before and after the call.
unfoldable pub send_and_recv_tcp :
    Config → ℕ → Lookup → TargetConns → String → Bytes → Result Bytes × TargetConns
send_and_recv_tcp config now lookup conns addr payload =
    let (result, entry) = send_looked_up config now addr payload lookup (conns addr) in
    (result, put conns addr entry)
