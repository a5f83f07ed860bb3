-- ===== src/Client/Retry.antt =====
-- The retries of `send_and_recv_with_retry`.
use melsec_mc.Prelude.{
  min, ◌*◌, ◌^◌, ◌-◌, ◌≤◌, refl, sym, ℕ, zero, suc, ◌+◌, ◌<◌, ◌≡◌, ◌∙◌, ap, Option, none, some,
  List, [], ◌∷◌, arith,
}
use native.Mathlib.Nat.{pow-suc, mul_assoc}
use native.Mathlib.Numerals.{add-one}
use melsec_mc.Error.{MelsecError, Result, ok, err}
use melsec_mc.Bytes.{Bytes}
use melsec_mc.Config.{Config}
use melsec_mc.Client.{backoff, retry, send_and_recv_with_retry}

-- The sleeps after `n` attempts from the `attempt`-th on.
pub backoffs : ℕ → ℕ → ℕ → List ℕ
backoffs base attempt zero = []
backoffs base attempt (suc n) = backoff base attempt ∷ backoffs base (attempt + 1) n

-- `n` sleeps, each twice the one before, `left` times, and not above 2 ^ 64 - 1; then they stay.
abbrev pub doubling : ℕ → ℕ → ℕ → List ℕ
doubling left ms zero = []
doubling zero ms (suc n) = ms ∷ doubling zero ms n
doubling (suc left) ms (suc n) = ms ∷ doubling left (min (ms * 2) (2 ^ 64 - 1)) n

backoffs-constant :
    (base k n : ℕ)
    → 63 ≤ k
    → backoffs base (k + 1) n ≡ doubling 0 (min (base * 2 ^ 63) (2 ^ 64 - 1)) n
unfolding backoffs backoff
backoffs-constant base k zero h = refl
backoffs-constant base k (suc n) h =
    let cap : min (k + 1 - 1) 63 ≡ 63 = omega arith in
    rw (cap, backoffs-constant base (k + 1) n (omega arith))

twice_capped : (x : ℕ) → min (min x (2 ^ 64 - 1) * 2) (2 ^ 64 - 1) ≡ min (x * 2) (2 ^ 64 - 1)
twice_capped x = omega arith

backoffs-doubling :
    (base left k n : ℕ)
    → k + left ≡ 63
    → backoffs base (k + 1) n ≡ doubling left (min (base * 2 ^ k) (2 ^ 64 - 1)) n
unfolding backoffs backoff
backoffs-doubling base left k zero h = refl
backoffs-doubling base zero k (suc n) h =
    let last : k ≡ 63 = omega arith in rw last (backoffs-constant base 63 (suc n) (omega arith))
backoffs-doubling base (suc left) k (suc n) h =
    let exponent : min (k + 1 - 1) 63 ≡ k = omega arith in
    let power : base * 2 ^ (k + 1) ≡ base * 2 ^ k * 2 =
      rw (add-one k, pow-suc 2 k) (sym (mul_assoc base (2 ^ k) 2)) in
    rw (
      exponent,
      backoffs-doubling base left (k + 1) n (omega arith),
      power,
      sym (twice_capped (base * 2 ^ k)),
    )

module _ {S : Type 0} (exchange : Bytes → S → Result Bytes × S) (payload : Bytes) where
  -- `n` exchanges in a row fail, from the first state to the second.
  pub data Failing : ℕ → S → S → Type 0 where
    none_failed : (s : S) → Failing 0 s s
    failed :
        (n : ℕ) (s t u : S) (e : MelsecError)
        → exchange payload s ≡ (err e, t)
        → Failing n t u
        → Failing (suc n) s u

module _ {S : Type 0} (exchange : Bytes → S → Result Bytes × S) (config : Config)
    (payload : Bytes) where
  retry-ok :
      (n left attempt : ℕ) (s t u : S) (buf : Bytes) (last_err : Option MelsecError)
      → Failing exchange payload n s t
      → exchange payload t ≡ (ok buf, u)
      → n < left
      → retry exchange config left attempt payload s last_err ≡ record {
        result = ok buf;
        state = u;
        sleeps = backoffs config.melsec_tcp_retry_backoff_ms attempt n;
      }
  unfolding retry backoffs
  retry-ok n zero attempt s t u buf last_err h e lt = absurd (omega arith)
  retry-ok n (suc left) attempt s t u buf last_err (none_failed _) e lt = rw (e, retry)
  retry-ok n (suc zero) attempt s t u buf last_err (failed k _ v _ e' eq rest) e lt =
      absurd (omega arith)
  retry-ok n (suc (suc left)) attempt s t u buf last_err (failed k _ v _ e' eq rest) e lt =
      rw (eq, retry, retry-ok k (suc left) (attempt + 1) v t u buf (some e') rest e (omega arith))

  pub retry_backoffs :
      (n : ℕ) (s t u : S) (buf : Bytes)
      → Failing exchange payload n s t
      → exchange payload t ≡ (ok buf, u)
      → n < config.melsec_tcp_retry_attempts
      → send_and_recv_with_retry exchange config payload s ≡ record {
        result = ok buf;
        state = u;
        sleeps = backoffs config.melsec_tcp_retry_backoff_ms 1 n;
      }
  unfolding send_and_recv_with_retry
  retry_backoffs n s t u buf h e lt =
      retry-ok n config.melsec_tcp_retry_attempts 1 s t u buf none h e lt

  -- If fewer exchanges fail in a row than there are attempts, the response of the next is
  -- returned, and the state is the one after it; after each failure the client sleeps, first for
  -- the base time, then each time for twice as long, but never above 2 ^ 64 - 1, and from the
  -- 64th sleep on no longer. The base time fits 64 bits.
  pub send_and_recv_with_retry-ok :
      (n : ℕ) (s t u : S) (buf : Bytes)
      → Failing exchange payload n s t
      → exchange payload t ≡ (ok buf, u)
      → n < config.melsec_tcp_retry_attempts
      → config.melsec_tcp_retry_backoff_ms < 2 ^ 64
      → send_and_recv_with_retry exchange config payload s ≡ record {
        result = ok buf;
        state = u;
        sleeps = doubling 63 config.melsec_tcp_retry_backoff_ms n;
      }
  send_and_recv_with_retry-ok n s t u buf h e lt fits =
      let base = config.melsec_tcp_retry_backoff_ms in
      let first : min (base * 2 ^ 0) (2 ^ 64 - 1) ≡ base = omega arith in
      retry_backoffs n s t u buf h e lt
      ∙ ap (λ (ms : List ℕ). record { result = ok buf; state = u; sleeps = ms })
          (backoffs-doubling base 63 0 n refl ∙ ap (λ (ms : ℕ). doubling 63 ms n) first)

  retry-err :
      (n attempt : ℕ) (s t u : S) (e : MelsecError) (last_err : Option MelsecError)
      → Failing exchange payload n s t
      → exchange payload t ≡ (err e, u)
      → retry exchange config (suc n) attempt payload s last_err ≡ record {
        result = err e;
        state = u;
        sleeps = backoffs config.melsec_tcp_retry_backoff_ms attempt n;
      }
  unfolding retry backoffs
  retry-err n attempt s t u e last_err (none_failed _) eq = rw (eq, retry)
  retry-err n attempt s t u e last_err (failed k _ v _ e' eq' rest) eq =
      rw (eq', retry, retry-err k (attempt + 1) v t u e (some e') rest eq)

  -- If all attempts fail, the last one's error is returned, after one sleep fewer than there are
  -- attempts.
  pub send_and_recv_with_retry-err :
      (n : ℕ) (s t u : S) (e : MelsecError)
      → Failing exchange payload n s t
      → exchange payload t ≡ (err e, u)
      → config.melsec_tcp_retry_attempts ≡ suc n
      → send_and_recv_with_retry exchange config payload s ≡ record {
        result = err e;
        state = u;
        sleeps = backoffs config.melsec_tcp_retry_backoff_ms 1 n;
      }
  unfolding send_and_recv_with_retry
  send_and_recv_with_retry-err n s t u e h eq all =
      ap (λ k. retry exchange config k 1 payload s none) all ∙ retry-err n 1 s t u e none h eq
