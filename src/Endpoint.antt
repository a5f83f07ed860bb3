-- ===== src/Endpoint.antt =====
-- src/endpoint.rs: the target of a connection. `decimal` prints a port, as `format!` does.
use Prim.Native.String.{◌++◌ as str_append}
use melsec_mc.Prelude.{ℕ, String}
use melsec_mc.McDefine.{AccessRoute, default_route}

pub record ConnectionTarget : Type 0 where
  pub ip : String
  pub port : ℕ
  pub addr : String
  pub access_route : AccessRoute

abbrev default_ip : String
default_ip = "127.0.0.1"

abbrev default_port : ℕ
default_port = 5000

module _ (decimal : ℕ → String) where
  -- `format!("{ip}:{port}")`
  abbrev addr_of : String → ℕ → String
  addr_of ip port = str_append ip (str_append ":" (decimal port))

  unfoldable pub new : ConnectionTarget
  new = record {
    ip = default_ip;
    port = default_port;
    addr = addr_of default_ip default_port;
    access_route = default_route;
  }

  with_ip : ConnectionTarget → String → ConnectionTarget
  with_ip t ip = record t { ip = ip; addr = addr_of ip t.port }

  with_port : ConnectionTarget → ℕ → ConnectionTarget
  with_port t port = record t { port = port; addr = addr_of t.ip port }

  pub with_access_route : ConnectionTarget → AccessRoute → ConnectionTarget
  with_access_route t route = record t { access_route = route }

  direct : String → ℕ → ConnectionTarget
  unfolding new with_ip with_port with_access_route
  direct ip port = with_access_route (with_port (with_ip new ip) port) default_route
