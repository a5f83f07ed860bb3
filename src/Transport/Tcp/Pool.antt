-- ===== src/Transport/Tcp/Pool.antt =====
-- A call's effect on the pool, and what it returns.
use melsec_mc.Prelude.{
  ℕ, ◌+◌, ◌*◌, ◌≡◌, inl, inr, Option, none, some, String, List, [], ◌∷◌, refl, sym, true, false,
  arith, All, leb, length, str_eq, if◌then◌else◌, Bool-cases, subst, eq_refl,
}
use melsec_mc.Error.{Result, ok, err, panic}
use melsec_mc.Bytes.{Bytes, le_at}
use melsec_mc.Bytes.Reads.{u16_at-lt}
use melsec_mc.Config.{Config}
use melsec_mc.Transport.{
  Incoming, TcpStream, Io, done, failed, io_crashed, perform_stream_io, expected_serial,
}
use melsec_mc.Transport.Stream.{IncomingBytes, IsAnswer, IoOk, perform_stream_io-IoOk}
use melsec_mc.Transport.Tcp.{
  Connect, connected, refused, timed_out, Lookup, resolved, unresolved, Entry, TargetConns, put,
  Outcome, try_remotes, try_cached, send_resolved, send_looked_up, send_and_recv_tcp,
}

-- Streams give bytes.
abbrev pub ConnectBytes : Connect → Type 0
ConnectBytes (connected s) = IncomingBytes s.incoming
ConnectBytes _ = Unit

abbrev EntryBytes : Entry → Type 0
EntryBytes none = Unit
EntryBytes (some (s, t)) = IncomingBytes s.incoming

-- `frame` answers a request with serial number `serial` on some stream.
pub record IsAnswered (serial : ℕ) (frame : Bytes) : Type 0 where
  pub incoming : Incoming
  pub rest : Incoming
  pub answer : IsAnswer serial [] incoming frame rest

-- A response comes with a stream in the pool, last used now; an error with none.
abbrev pub OutcomeOk : ℕ → ℕ → Outcome → Type 0
OutcomeOk now serial (ok frame, entry) =
    IsAnswered serial frame
    × (stream : TcpStream) × (entry ≡ some (stream, now))
    × IncomingBytes stream.incoming
OutcomeOk now serial (err e, entry) = entry ≡ none
OutcomeOk now serial (panic, entry) = ⊥

module _ (addr : String) (now serial : ℕ) where
  -- What is done with the outcome of an exchange.
  abbrev after_io : Outcome → (String → Outcome) → Io → Outcome
  after_io crashed next (done frame stream) = (ok frame, some (stream, now))
  after_io crashed next (failed e) = next e
  after_io crashed next io_crashed = crashed

  after_io-OutcomeOk :
      (crashed : Outcome) (next : String → Outcome) (incoming : Incoming) (io : Io)
      → IoOk serial [] incoming io
      → ((e : String) → OutcomeOk now serial (next e))
      → OutcomeOk now serial (after_io crashed next io)
  after_io-OutcomeOk crashed next incoming (done frame stream) h k = (
    record { incoming = incoming; rest = stream.incoming; answer = h },
    stream,
    refl,
    h.rest_bytes,
  )
  after_io-OutcomeOk crashed next incoming (failed e) h k = k e
  after_io-OutcomeOk crashed next incoming io_crashed h k = absurd h

  try_remotes-OutcomeOk :
      (remotes : List Connect) (last_err : Option String)
      → All ConnectBytes remotes
      → OutcomeOk now serial (try_remotes addr now serial remotes last_err)
  try_remotes-OutcomeOk [] last_err h = unfold try_remotes in refl
  try_remotes-OutcomeOk (refused e ∷ remotes) last_err h = unfold try_remotes in refl
  try_remotes-OutcomeOk (timed_out e ∷ remotes) last_err h = unfold try_remotes in refl
  try_remotes-OutcomeOk (connected s ∷ remotes) last_err h =
      subst (OutcomeOk now serial) (sym unfolded) (
        after_io-OutcomeOk (panic, none) (λ e. try_remotes addr now serial remotes (some e))
          s.incoming (perform_stream_io s serial) (perform_stream_io-IoOk s serial h.0)
          (λ e. try_remotes-OutcomeOk remotes (some e) h.1))
    where
      unfolded :
          try_remotes addr now serial (connected s ∷ remotes) last_err
          ≡ after_io
              (panic, none)
              (λ e. try_remotes addr now serial remotes (some e))
              (perform_stream_io s serial)
      unfolded = unfold try_remotes in ground arith

  try_cached-OutcomeOk :
      (idle : ℕ) (remotes : List Connect) (entry : Entry)
      → All ConnectBytes remotes
      → EntryBytes entry
      → OutcomeOk now serial (try_cached addr now serial idle remotes entry)
  try_cached-OutcomeOk idle remotes none h c =
      unfold try_cached in try_remotes-OutcomeOk remotes none h
  try_cached-OutcomeOk idle remotes (some (s, last_used)) h c =
      elim (Bool-cases (leb now (last_used + idle * 1_000_000_000))) [
        | inl fresh ↦ subst (OutcomeOk now serial) (sym (reused fresh)) (
            after_io-OutcomeOk (panic, none) (λ e. try_remotes addr now serial remotes (some e))
              s.incoming (perform_stream_io s serial) (perform_stream_io-IoOk s serial c)
              (λ e. try_remotes-OutcomeOk remotes (some e) h))
        | inr stale ↦ unfold try_cached in rw stale (try_remotes-OutcomeOk remotes none h)
      ]
    where
      reused :
          leb now (last_used + idle * 1_000_000_000) ≡ true
          → try_cached addr now serial idle remotes (some (s, last_used))
            ≡ after_io
                (panic, none)
                (λ e. try_remotes addr now serial remotes (some e))
                (perform_stream_io s serial)
      reused fresh = unfold try_cached in ground arith

-- The serial number that an outgoing payload asks for.
unfoldable pub serial_of : Bytes → ℕ
serial_of payload = if leb 4 (length payload) then le_at payload 2 else 0

pub expected_serial_lem : (payload : Bytes) → expected_serial payload ≡ ok (serial_of payload)
unfolding expected_serial serial_of
expected_serial_lem payload = ground (arith, u16_at-lt payload 2)

-- The pool holds streams of bytes.
abbrev pub PoolBytes : TargetConns → Type 0
PoolBytes conns = (addr : String) → EntryBytes (conns addr)

abbrev LookupBytes : Lookup → Type 0
LookupBytes (resolved remotes) = All ConnectBytes remotes
LookupBytes (unresolved e) = Unit

-- What a call with an address that resolves guarantees.
pub record IsSent (now : ℕ) (conns : TargetConns) (addr : String) (payload : Bytes)
    (sent : Result Bytes × TargetConns) : Type 0 where
  pub outcome : OutcomeOk now (serial_of payload) (sent.0, sent.1 addr)
  pub others : (other : String) → str_eq addr other ≡ false → sent.1 other ≡ conns other
  pub pool : PoolBytes sent.1

OutcomeOk-EntryBytes :
    (now serial : ℕ) (r : Result Bytes) (entry : Entry)
    → OutcomeOk now serial (r, entry)
    → EntryBytes entry
OutcomeOk-EntryBytes now serial (ok frame) entry h = subst EntryBytes (sym h.2) h.3
OutcomeOk-EntryBytes now serial (err e) entry h = subst EntryBytes (sym h) tt
OutcomeOk-EntryBytes now serial panic entry h = absurd h

put_self : (conns : TargetConns) (addr : String) (e : Entry) → put conns addr e addr ≡ e
unfolding put
put_self conns addr e = rw eq_refl

put-PoolBytes :
    (conns : TargetConns) (addr : String) (e : Entry)
    → PoolBytes conns
    → EntryBytes e
    → PoolBytes (put conns addr e)
unfolding put
put-PoolBytes conns addr e h k other = elim (Bool-cases (str_eq addr other)) [
  | inl same ↦ rw same k
  | inr differs ↦ rw differs (h other)
]

send_looked_up-OutcomeOk :
    (config : Config) (now : ℕ) (remotes : List Connect) (addr : String) (payload : Bytes)
    (entry : Entry)
    → All ConnectBytes remotes
    → EntryBytes entry
    → OutcomeOk now
        (serial_of payload)
        (send_looked_up config now addr payload (resolved remotes) entry)
send_looked_up-OutcomeOk config now remotes addr payload entry h k =
    subst (OutcomeOk now (serial_of payload)) (sym tried) (
      try_cached-OutcomeOk addr now (serial_of payload) config.melsec_conn_idle_secs remotes entry h
        k)
  where
    tried :
        send_looked_up config now addr payload (resolved remotes) entry
        ≡ try_cached addr now (serial_of payload) config.melsec_conn_idle_secs remotes entry
    tried = unfold send_looked_up send_resolved in rw (expected_serial_lem payload, send_resolved)

-- A TCP exchange with an address that resolves, over streams of bytes and from a pool of such,
-- never reads out of range. A response that it returns answers the payload's serial number on
-- some stream, and leaves under the address a stream, last used now; an error leaves none there.
-- No other address's connection changes, and the pool still holds streams of bytes.
pub send_and_recv_tcp-IsSent :
    (config : Config) (now : ℕ) (remotes : List Connect) (conns : TargetConns) (addr : String)
    (payload : Bytes)
    → All ConnectBytes remotes
    → PoolBytes conns
    → IsSent now conns addr payload
        (send_and_recv_tcp config now (resolved remotes) conns addr payload)
unfolding send_and_recv_tcp
send_and_recv_tcp-IsSent config now remotes conns addr payload h pool =
    let sent = send_looked_up config now addr payload (resolved remotes) (conns addr) in
    let good : OutcomeOk now (serial_of payload) sent =
      send_looked_up-OutcomeOk config now remotes addr payload (conns addr) h (pool addr) in
    record {
      outcome = rw (put_self conns addr sent.1) good;
      others = λ other differs. unfold put in rw differs;
      pool =
          put-PoolBytes conns addr sent.1 pool
            (OutcomeOk-EntryBytes now (serial_of payload) sent.0 sent.1 good);
    }
