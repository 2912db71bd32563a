-- ===== src/Tcp.antt =====
-- common/ports.go: what mulchd writes for the TCP proxy and the proxy reads, with net.TCPAddr as an
-- IP in text and a port.
use mulch.Prelude.{ℕ}
use mulch.GoMap.{Map}
use mulch.Text.{Str}

pub record TcpAddr : Type 0 where
  pub ip : Str
  pub port : ℕ

-- Proxy protocol port 0 is none.
pub record Forwarder : Type 0 where
  pub dest : TcpAddr
  pub proxy_proto_port : ℕ

-- `forwards` is by source IP, "*" being any.
pub record Listener : Type 0 where
  pub listen_addr : TcpAddr
  pub forwards : Map Str Forwarder

abbrev pub Listeners : Type 0
Listeners = Map ℕ Listener
