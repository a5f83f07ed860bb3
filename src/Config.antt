-- ===== src/Config.antt =====
-- src/config.rs: the settings that the transport and the client read, and the environment
-- variables that they come from.
mod Env
use melsec_mc.Prelude.{ℕ, Bool, false, Option, none, some, String, str_eq}
use mathlib.Core.Option.{get_or}
use melsec_mc.Text.{parse_uint, max_u64}

pub record Config : Type 0 where
  pub melsec_conn_idle_secs : ℕ
  pub melsec_udp_recv_attempts : ℕ
  pub melsec_dump_on_error : Bool
  pub log_mc_payloads : Bool
  pub melsec_tcp_retry_attempts : ℕ
  pub melsec_tcp_retry_backoff_ms : ℕ

-- `Config::from_env` where no variable is set.
abbrev pub default_config : Config
default_config = record {
  melsec_conn_idle_secs = 300;
  melsec_udp_recv_attempts = 3;
  melsec_dump_on_error = false;
  log_mc_payloads = false;
  melsec_tcp_retry_attempts = 3;
  melsec_tcp_retry_backoff_ms = 100;
}

-- `.ok().and_then(|s| s.parse().ok()).unwrap_or(..)` for a `u64` or a `usize`
abbrev pub parsed : Option String → Option ℕ
parsed none = none
parsed (some s) = parse_uint 10 max_u64 s

-- `.map(|v| v == "1").unwrap_or(false)`
abbrev pub is_one : Option String → Bool
is_one none = false
is_one (some v) = str_eq v "1"

-- The environment gives the variables that are set, with text that is valid Unicode.
unfoldable pub from_env : (String → Option String) → Config
from_env env = record {
  melsec_conn_idle_secs = get_or (parsed (env "MELSEC_CONN_IDLE_SECS")) 300;
  melsec_udp_recv_attempts = get_or (parsed (env "MELSEC_UDP_RECV_ATTEMPTS")) 3;
  melsec_dump_on_error = is_one (env "MELSEC_DUMP_ON_ERROR");
  log_mc_payloads = is_one (env "LOG_MC_PAYLOADS");
  melsec_tcp_retry_attempts = get_or (parsed (env "MELSEC_TCP_RETRY_ATTEMPTS")) 3;
  melsec_tcp_retry_backoff_ms = get_or (parsed (env "MELSEC_TCP_RETRY_BACKOFF_MS")) 100;
}
