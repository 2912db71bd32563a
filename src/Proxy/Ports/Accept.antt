-- ===== src/Proxy/Ports/Accept.antt =====
-- Where a listener forwards a connection, against the forward map it was given.
use mulch.Prelude.{
  ◌≡◌, Bool, true, not, ◌&&◌, Option, none, some, [], ◌∷◌, arith, if◌then◌else◌, eqb, Option-cases,
  inl, inr,
}
use mulch.GoMap.{Map, get, has, put}
use mulch.GoMap.Laws.{get-put, has-eq-get}
use mulch.Text.{Str, lit, str_eq, str_beq_iff}
use mulch.Tcp.{TcpAddr, Forwarder}
use mulch.Proxy.Ports.{
  PortListener, Connection, forward_key, allowed_forwards, forwarder_of, destination, forward_on,
  accept,
}
use mulch.Proxy.Ports.Channels.{is_allowed}

-- Where the forward map sends a source, for a listener of the kind; a public one knows only "*", and
-- a proxy protocol port replaces the port there.
abbrev pub target : Bool → Option Forwarder → Option TcpAddr
target public none = none
target public (some f) = some (
    if public && not (eqb f.proxy_proto_port 0)
    then record f.dest { port = f.proxy_proto_port }
    else f.dest)

abbrev pub target_of : Bool → Str → Map Str Forwarder → Option TcpAddr
target_of public source m = target public (get (if public then lit "*" else source) m)

abbrev pub forward_to : Option Connection → Option TcpAddr
forward_to none = none
forward_to (some c) = some c.forward_to

-- The key of a forwarder of the map is allowed.
pub is_allowed-get :
    (source : Str) (f : Forwarder) (m : Map Str Forwarder)
    → get source m ≡ some f
    → is_allowed (forward_key source f) m ≡ true
unfolding get allowed_forwards
is_allowed-get source f [] h = ground arith
is_allowed-get source f ((s, g) ∷ m) h =
    let k = forward_key source f in
    let j = forward_key s g in
    ground (
      arith,
      has-eq-get k (put j true (allowed_forwards m)),
      has-eq-get k (allowed_forwards m),
      get-put j k true (allowed_forwards m),
      is_allowed-get source f m,
      str_beq_iff s source,
      str_beq_iff j k,
    )

-- A listener whose close channels are those of its forward map.
abbrev pub HasChannels : PortListener → Type 0
HasChannels l = (k : Str) → has k l.close_channels ≡ is_allowed k l.forward_map

pub accept_lem :
    (source : Str) (l : PortListener)
    → HasChannels l
    → forward_to (accept source l) ≡ target_of l.public source l.forward_map
unfolding accept forwarder_of destination forward_on
accept_lem source l h =
    let key = if l.public then lit "*" else source in
    elim (Option-cases (get key l.forward_map)) [
      | inl n ↦ ground arith
      | inr (f, n) ↦ ground (
        arith,
        h (forward_key key f),
        is_allowed-get key f l.forward_map,
        has-eq-get (forward_key key f) l.close_channels,
      )
    ]
