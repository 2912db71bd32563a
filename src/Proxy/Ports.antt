-- ===== src/Proxy/Ports.antt =====
-- The TCP proxy: port_database.go, port_server.go and port_listener.go of cmd/mulch-proxy. Close
-- channels are objects that running connections hold, so they have numbers; `closed` lists those
-- that were closed. Which calls of net.ListenTCP and of a listener's Close succeed is an argument.
pub mod Channels
pub mod Refresh
pub mod Reload
pub mod Accept
mod Tests
use mulch.Prelude.{
  ℕ, suc, ◌+◌, Bool, true, false, not, ◌&&◌, Option, none, some, List, [], ◌∷◌, ◌++◌, if◌then◌else◌,
  eqb, nat_eq,
}
use mulch.Text.{Str, lit, str_eq}
use mulch.Text.Decimal.{itoa}
use mulch.GoMap.{Map, get, has, put, keys}
use mulch.Tcp.{TcpAddr, Forwarder, Listener, Listeners}

-- The file of the port database.
pub data PortFile : Type 0 where
  missing unreadable corrupt : PortFile
  content : Listeners → PortFile

pub data LoadError : Type 0 where
  cannot_open cannot_decode : LoadError

-- The close channels that were made: the next number, and the numbers of those closed.
pub record CloseChannels : Type 0 where
  pub next : ℕ
  pub closed : List ℕ

pub record PortListener : Type 0 where
  pub connection_count : ℕ
  pub listen_addr : TcpAddr
  pub public : Bool
  pub forward_map : Map Str Forwarder
  pub close_channels : Map Str ℕ
  pub closed : Bool
  pub version : ℕ

pub record PortServer : Type 0 where
  pub db : Listeners
  pub listeners : Map ℕ PortListener
  pub current_version : ℕ
  pub channels : CloseChannels

-- `PortDatabase.Load`: the previous map is cleared first.
unfoldable pub load : PortFile → Listeners × Option LoadError
load missing = ([], none)
load unreadable = ([], some cannot_open)
load corrupt = ([], some cannot_decode)
load (content db) = (db, none)

-- `fmt.Sprintf("%s->%s", source, forward.Dest.IP.String())`
unfoldable pub forward_key : Str → Forwarder → Str
forward_key source f = source ++ (lit "->" ++ f.dest.ip)

unfoldable pub allowed_forwards : Map Str Forwarder → Map Str Bool
allowed_forwards [] = []
allowed_forwards ((source, f) ∷ m) = put (forward_key source f) true (allowed_forwards m)

-- "add missing close channels"
unfoldable pub add_channel : Str → Map Str ℕ → CloseChannels → Map Str ℕ × CloseChannels
add_channel key m c =
    if has key m then (m, c) else (put key c.next m, record c { next = suc c.next })

unfoldable pub add_missing : List Str → Map Str ℕ → CloseChannels → Map Str ℕ × CloseChannels
add_missing [] m c = (m, c)
add_missing (key ∷ ks) m c = let (m', c') = add_channel key m c in add_missing ks m' c'

-- "close old ones"
unfoldable pub close_old : Map Str Bool → Map Str ℕ → CloseChannels → Map Str ℕ × CloseChannels
close_old allowed [] c = ([], c)
close_old allowed ((key, n) ∷ m) c =
    let (m', c') = close_old allowed m c in
    if has key allowed then ((key, n) ∷ m', c') else (m', record c' { closed = n ∷ c'.closed })

-- `UpdateForwardMap`
unfoldable pub update_forward_map :
    Map Str Forwarder → PortListener → CloseChannels → PortListener × CloseChannels
update_forward_map forwards l c =
    let allowed = allowed_forwards forwards in
    let (added, c') = add_missing (keys allowed) l.close_channels c in
    let (left, c'') = close_old allowed added c' in
    (record l { forward_map = forwards; close_channels = left }, c'')

-- `NewPortListener`, once net.ListenTCP has succeeded.
unfoldable pub new_port_listener : Listener → ℕ → CloseChannels → PortListener × CloseChannels
new_port_listener conf version c =
    update_forward_map conf.forwards
      (record {
        connection_count = 0;
        listen_addr = conf.listen_addr;
        public = has (lit "*") conf.forwards;
        forward_map = [];
        close_channels = [];
        closed = false;
        version = version;
      })
      c

-- `Close`, by what closing the socket reports; the channels are closed only if it worked.
unfoldable pub close_all : Map Str ℕ → CloseChannels → CloseChannels
close_all [] c = c
close_all ((key, n) ∷ m) c = let c' = close_all m c in record c' { closed = n ∷ c'.closed }

unfoldable pub close : Bool → PortListener → CloseChannels → PortListener × CloseChannels
close works l c =
    if works
    then (record l { closed = true; close_channels = [] }, close_all l.close_channels c)
    else (record l { closed = true }, c)

-- `GetTotalConnections`
unfoldable pub get_total_connections : Map ℕ PortListener → ℕ
get_total_connections [] = 0
get_total_connections ((port, l) ∷ m) = l.connection_count + get_total_connections m

-- The first loop of `refreshListeners`, for one port of the database.
unfoldable pub put_listener :
    ℕ → PortListener × CloseChannels → Map ℕ PortListener → Map ℕ PortListener × CloseChannels
put_listener port (l, c) m = (put port l m, c)

unfoldable pub sync_port :
    (ℕ → Bool)
    → ℕ
    → ℕ
    → Listener
    → Option PortListener
    → Map ℕ PortListener
    → CloseChannels
    → Map ℕ PortListener × CloseChannels
sync_port listens version port conf none m c =
    if listens port then put_listener port (new_port_listener conf version c) m else (m, c)
sync_port listens version port conf (some l) m c =
    put_listener port (update_forward_map conf.forwards (record l { version = version }) c) m

unfoldable pub sync_ports :
    (ℕ → Bool)
    → ℕ
    → Listeners
    → Map ℕ PortListener
    → CloseChannels
    → Map ℕ PortListener × CloseChannels
sync_ports listens version [] m c = (m, c)
sync_ports listens version ((port, conf) ∷ db) m c =
    let (m', c') = sync_port listens version port conf (get port m) m c in
    sync_ports listens version db m' c'

-- "delete unused listeners"
unfoldable pub drop_port :
    Bool
    → ℕ
    → PortListener × CloseChannels
    → Map ℕ PortListener
    → Map ℕ PortListener × CloseChannels
drop_port works port (l, c) m = if works then (m, c) else ((port, l) ∷ m, c)

unfoldable pub drop_unused :
    (ℕ → Bool) → ℕ → Map ℕ PortListener → CloseChannels → Map ℕ PortListener × CloseChannels
drop_unused closes version [] c = ([], c)
drop_unused closes version ((port, l) ∷ m) c =
    let (m', c') = drop_unused closes version m c in
    if eqb l.version version
    then ((port, l) ∷ m', c')
    else drop_port (closes port) port (close (closes port) l c') m'

-- `refreshListeners`
unfoldable pub refresh_listeners : (ℕ → Bool) → (ℕ → Bool) → PortServer → PortServer
refresh_listeners listens closes s =
    let version = suc s.current_version in
    let (m, c) = sync_ports listens version s.db s.listeners s.channels in
    let (m', c') = drop_unused closes version m c in
    record s { listeners = m'; current_version = version; channels = c' }

-- `ReloadPorts`: an error of `Load` is logged, and the listeners are refreshed all the same.
unfoldable pub reload_ports : (ℕ → Bool) → (ℕ → Bool) → PortFile → PortServer → PortServer
reload_ports listens closes file s =
    refresh_listeners listens closes (record s { db = (load file).0 })

-- `NewPortServer`; `none` is the error of the database.
unfoldable pub new_port_server : (ℕ → Bool) → (ℕ → Bool) → PortFile → Option PortServer
new_port_server listens closes file = elim (load file).1 [
  | some e ↦ none
  | none ↦ some (
      refresh_listeners listens closes (record {
        db = (load file).0;
        listeners = [];
        current_version = 0;
        channels = record { next = 0; closed = [] };
      }))
]

-- What `Listen` does with a connection: where it forwards to, the close channel, and whether the
-- header of the PROXY protocol goes first.
pub record Connection : Type 0 where
  pub forward_to : TcpAddr
  pub close_channel : ℕ
  pub proxy_header : Bool

-- The forwarder of a connection.
unfoldable pub forwarder_of : Str → PortListener → Option Forwarder
forwarder_of source l = if l.public then get (lit "*") l.forward_map else get source l.forward_map

unfoldable pub destination : PortListener → Forwarder → TcpAddr
destination l f =
    if l.public && not (eqb f.proxy_proto_port 0)
    then record f.dest { port = f.proxy_proto_port }
    else f.dest

unfoldable pub forward_on : PortListener → Forwarder → Option ℕ → Option Connection
forward_on l f none = none
forward_on l f (some n) = some (record {
  forward_to = destination l f;
  close_channel = n;
  proxy_header = not (eqb f.proxy_proto_port 0);
})

-- The body of the loop of `Listen`, once a connection was accepted; `none` closes it.
unfoldable pub accept : Str → PortListener → Option Connection
accept source l = elim (forwarder_of source l) [
  | none ↦ none
  | some f ↦
      forward_on l f (get (forward_key (if l.public then lit "*" else source) f) l.close_channels)
]
