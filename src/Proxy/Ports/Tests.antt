-- ===== src/Proxy/Ports/Tests.antt =====
-- A port server with a private listener, and the theorems about it there.
use mulch.Prelude.{ℕ, ◌≡◌, ◌≢◌, refl, Bool, true, false, none, some, [], ◌∷◌, arith, ◌==◌, nat_eq}
use mulch.GoMap
use mulch.GoMap.{Map}
use mulch.GoMap.Laws.{IsMap}
use mulch.Text.{Str, lit, str_eq, str_beq}
use mulch.Tcp.{TcpAddr, Forwarder, Listener, Listeners}
use mulch.Proxy.Ports.{PortListener, PortServer, PortFile, content, load, reload_ports}
use mulch.Proxy.Ports.Refresh.{route_to, routed_to}
use mulch.Proxy.Ports.Reload.{IsServer, reload_ports_lem, reload_ports-stale_kind}

abbrev db_host : TcpAddr
db_host = record { ip = lit "10.104.0.3"; port = 5432 }

abbrev to_db : Forwarder
to_db = record { dest = db_host; proxy_proto_port = 0 }

abbrev gateway : TcpAddr
gateway = record { ip = lit "10.104.0.1"; port = 9001 }

abbrev private_listener : PortListener
private_listener = record {
  connection_count = 1;
  listen_addr = gateway;
  public = false;
  forward_map = (lit "10.104.0.2", to_db) ∷ [];
  close_channels = (lit "10.104.0.2->10.104.0.3", 0) ∷ [];
  closed = false;
  version = 1;
}

abbrev server : PortServer
server = record {
  db = [];
  listeners = (9001, private_listener) ∷ [];
  current_version = 1;
  channels = record { next = 1; closed = [] };
}

abbrev everyone : Map Str Forwarder
everyone = (lit "*", to_db) ∷ []

abbrev public_conf : Listener
public_conf = record { listen_addr = gateway; forwards = everyone }

abbrev public_ports : Listeners
public_ports = (9001, public_conf) ∷ []

always : ℕ → Bool
always n = true

always-true : (n : ℕ) → always n ≡ true
unfolding always
always-true n = refl

public_ports-IsMap : IsMap public_ports
unfolding GoMap.get
public_ports-IsMap = (refl, tt)

server-IsServer : IsServer server
unfolding GoMap.get
server-IsServer = record { is_map = (refl, tt); old = refl }

found_listener : GoMap.get 9001 server.listeners ≡ some private_listener
unfolding GoMap.get
found_listener = refl

found_conf : GoMap.get 9001 public_ports ≡ some public_conf
unfolding GoMap.get
found_conf = refl

not_star : (lit "*" == lit "10.104.0.2") ≡ false
unfolding str_beq
not_star = refl

unreadable_fails : (load PortFile.unreadable).1 ≢ none
unfolding load
unreadable_fails = ground arith

reload_ports_example :
    route_to 9001
      (lit "10.104.0.2")
      (reload_ports always always (content public_ports) server).listeners
    ≡ routed_to (lit "10.104.0.2") (GoMap.get 9001 server.listeners) (GoMap.get 9001 public_ports)
reload_ports_example =
    reload_ports_lem always always server public_ports 9001 (lit "10.104.0.2") always-true
      always-true public_ports-IsMap server-IsServer

reload_ports-stale_kind_example :
    route_to 9001
      (lit "10.104.0.2")
      (reload_ports always always (content public_ports) server).listeners
    ≡ none
reload_ports-stale_kind_example =
    reload_ports-stale_kind always always server public_ports 9001 (lit "10.104.0.2")
      private_listener public_conf to_db always-true always-true public_ports-IsMap server-IsServer
      found_listener refl found_conf refl not_star
