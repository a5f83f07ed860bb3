-- ===== src/Transport/Stream.antt =====
-- `perform_stream_io`: it reads in range, and what it returns was received and answers the request.
use melsec_mc.Prelude.{
  ℕ, suc, ◌≡◌, ◌≢◌, Option, none, some, String, List, [], ◌∷◌, ◌++◌, sym, ◌∙◌, ap, true, arith,
  length, append_assoc, All-append, All-append_right, subst,
}
use melsec_mc.Bytes.{Bytes, IsByte, IsBytes}
use melsec_mc.McFrame.Detect.{starts_mc4e}
use melsec_mc.Transport.{
  Scanned, delivered, pending, crashed, out_of_fuel, scan, Incoming, closed, broken, chunk,
  TcpStream, Io, done, failed, io_crashed, receive, write_then, perform_stream_io,
}
use melsec_mc.Transport.Scan.{IsDelivered, IsPending, ScanOk, scan-ScanOk, IsDelivered-starts_mc4e}

-- Every read has bytes.
abbrev pub IncomingBytes : Incoming → Type 0
IncomingBytes closed = Unit
IncomingBytes (broken e) = Unit
IncomingBytes (chunk c rest) = IsBytes c × IncomingBytes rest

-- All the bytes that the reads give.
abbrev pub received : Incoming → Bytes
received closed = []
received (broken e) = []
received (chunk c rest) = c ++ received rest

-- A returned frame stands in what was received before it, and answers the request.
pub record IsAnswer (expected : ℕ) (buf : Bytes) (incoming : Incoming) (frame : Bytes)
    (rest : Incoming) : Type 0 where
  pub seen : Bytes
  pub window : Bytes
  pub read_so_far : buf ++ received incoming ≡ (seen ++ window) ++ received rest
  pub answers : IsDelivered expected window frame
  pub window_bytes : IsBytes window
  pub rest_bytes : IncomingBytes rest

abbrev pub IoOk : ℕ → Bytes → Incoming → Io → Type 0
IoOk expected buf incoming (done frame stream) =
    IsAnswer expected buf incoming frame stream.incoming
IoOk expected buf incoming (failed e) = Unit
IoOk expected buf incoming io_crashed = ⊥

unfoldable pub receive_on : List (Option String) → ℕ → Incoming → Scanned → Io
receive_on writes expected rest (delivered frame) =
    done frame (record { writes = writes; incoming = rest })
receive_on writes expected rest (pending left) = receive writes expected left rest
receive_on writes expected rest crashed = io_crashed
receive_on writes expected rest out_of_fuel = io_crashed

pub receive-chunk :
    (writes : List (Option String)) (expected : ℕ) (buf : Bytes) (b : ℕ) (bs : Bytes)
    (rest : Incoming)
    → receive writes expected buf (chunk (b ∷ bs) rest)
      ≡ receive_on writes expected rest
          (scan (suc (length (buf ++ (b ∷ bs)))) expected (buf ++ (b ∷ bs)))
unfolding receive receive_on
receive-chunk writes expected buf b bs rest = ground arith

IsAnswer-pending :
    (expected : ℕ) (buf c left : Bytes) (incoming : Incoming) (frame : Bytes) (rest : Incoming)
    → IsPending (buf ++ c) left
    → IsAnswer expected left incoming frame rest
    → IsAnswer expected buf (chunk c incoming) frame rest
IsAnswer-pending expected buf c left incoming frame rest p a = record {
  seen = p.dropped ++ a.seen;
  window = a.window;
  read_so_far =
      sym (append_assoc buf c (received incoming))
      ∙ ap (λ t. t ++ received incoming) p.ends
      ∙ append_assoc p.dropped left (received incoming)
      ∙ ap (λ t. p.dropped ++ t) a.read_so_far
      ∙ simp append_assoc;
  answers = a.answers;
  window_bytes = a.window_bytes;
  rest_bytes = a.rest_bytes;
}

IoOk-pending :
    (expected : ℕ) (buf c left : Bytes) (incoming : Incoming) (io : Io)
    → IsPending (buf ++ c) left
    → IoOk expected left incoming io
    → IoOk expected buf (chunk c incoming) io
IoOk-pending expected buf c left incoming (done frame stream) p a =
    IsAnswer-pending expected buf c left incoming frame stream.incoming p a
IoOk-pending expected buf c left incoming (failed e) p a = tt
IoOk-pending expected buf c left incoming io_crashed p a = a

module _ (writes : List (Option String)) (expected : ℕ) where
  receive_on-IoOk :
      (buf c : Bytes) (rest : Incoming) (s : Scanned)
      → IsBytes (buf ++ c)
      → IncomingBytes rest
      → ScanOk expected (buf ++ c) s
      → ((left : Bytes)
          → IsBytes left
          → IoOk expected left rest (receive writes expected left rest))
      → IoOk expected buf (chunk c rest) (receive_on writes expected rest s)
  unfolding receive_on
  receive_on-IoOk buf c rest (delivered frame) bytes more h ih = record {
    seen = [];
    window = buf ++ c;
    read_so_far = sym (append_assoc buf c (received rest));
    answers = h;
    window_bytes = bytes;
    rest_bytes = more;
  }
  receive_on-IoOk buf c rest (pending left) bytes more h ih =
      IoOk-pending expected buf c left rest (receive writes expected left rest) h
        (ih left (All-append_right IsByte h.dropped left (subst IsBytes h.ends bytes)))
  receive_on-IoOk buf c rest crashed bytes more h ih = h
  receive_on-IoOk buf c rest out_of_fuel bytes more h ih = h

  receive-IoOk :
      (buf : Bytes) (incoming : Incoming)
      → IsBytes buf
      → IncomingBytes incoming
      → IoOk expected buf incoming (receive writes expected buf incoming)
  receive-IoOk buf closed bytes h = unfold receive in tt
  receive-IoOk buf (broken e) bytes h = unfold receive in tt
  receive-IoOk buf (chunk [] rest) bytes h = unfold receive in tt
  receive-IoOk buf (chunk (b ∷ bs) rest) bytes h =
      let all : IsBytes (buf ++ (b ∷ bs)) = All-append IsByte buf (b ∷ bs) bytes h.0 in
      rw (receive-chunk writes expected buf b bs rest) (
        receive_on-IoOk buf (b ∷ bs) rest _ all h.1
          (scan-ScanOk (suc (length (buf ++ (b ∷ bs)))) expected (buf ++ (b ∷ bs)) (omega arith)
            all)
          (λ left left_bytes. receive-IoOk left rest left_bytes h.1))

-- On a stream of bytes the exchange never reads out of range, and a frame that it returns stands
-- in the bytes received before it, is found there with just its own length, and has the expected
-- serial number, unless 0 is expected.
pub perform_stream_io-IoOk :
    (stream : TcpStream) (expected : ℕ)
    → IncomingBytes stream.incoming
    → IoOk expected [] stream.incoming (perform_stream_io stream expected)
unfolding perform_stream_io
perform_stream_io-IoOk stream expected bytes = written stream.writes
  where
    written :
        (writes : List (Option String))
        → IoOk expected [] stream.incoming (write_then writes expected stream.incoming)
    written [] = unfold write_then in tt
    written (some e ∷ writes) = unfold write_then in tt
    written (none ∷ writes) =
        unfold write_then in receive-IoOk writes expected [] stream.incoming tt bytes

-- Whatever a stream of bytes gives, an exchange with an expected serial number other than 0
-- returns an MC4E frame if any: a response in the MC3E format is never returned.
perform_stream_io-starts_mc4e :
    (stream : TcpStream) (expected : ℕ) (frame : Bytes) (stream' : TcpStream)
    → IncomingBytes stream.incoming
    → expected ≢ 0
    → perform_stream_io stream expected ≡ done frame stream'
    → starts_mc4e frame ≡ true
perform_stream_io-starts_mc4e stream expected frame stream' bytes ne e =
    let a : IoOk expected [] stream.incoming (done frame stream') =
      subst (IoOk expected [] stream.incoming) e (perform_stream_io-IoOk stream expected bytes) in
    IsDelivered-starts_mc4e expected a.window frame a.window_bytes ne a.answers
