-- ===== src/Proxy/Ports/Refresh.antt =====
-- The listeners that the two loops of `refreshListeners` leave.
use mulch.Prelude.{
  ap, ℕ, ◌≡◌, refl, ◌∙◌, sym, subst, Bool, true, false, Option, none, some, [], ◌∷◌, arith,
  if◌then◌else◌, eqb, eqb_iff, nat_eq, Bool-cases, inl, inr,
}
use mulch.GoMap.{Map, get, has, put}
use mulch.GoMap.Laws.{get-put, IsMap, put-IsMap}
use mulch.Text.{Str, lit, str_eq}
use mulch.Tcp.{TcpAddr, Listener, Listeners}
use mulch.Proxy.Ports.{
  CloseChannels, PortListener, update_forward_map, new_port_listener, close, put_listener,
  sync_port, sync_ports, drop_port, drop_unused, accept,
}
use mulch.Proxy.Ports.Channels.{update_forward_map_lem}
use mulch.Proxy.Ports.Accept.{target_of, forward_to, HasChannels, accept_lem}

get-put_listener :
    (p q : ℕ) (l : PortListener) (m : Map ℕ PortListener)
    → get q (put p l m) ≡ (if eqb p q then some l else get q m)
get-put_listener p q l m = get-put p q l m

-- The listener serves a part of the database: its version, its forward map, its close channels.
pub record IsSynced (version : ℕ) (kind : Bool) (conf : Listener) (l : PortListener) : Type 0 where
  pub current : l.version ≡ version
  pub forwards : l.forward_map ≡ conf.forwards
  pub channels : HasChannels l
  pub same_kind : l.public ≡ kind

-- Whether the listener of a port is public: one that is there stays what it was when it was opened.
abbrev pub kind_of : Listener → Option PortListener → Bool
kind_of conf none = has (lit "*") conf.forwards
kind_of conf (some l) = l.public

update_forward_map-IsSynced :
    (version : ℕ) (conf : Listener) (l : PortListener) (c : CloseChannels)
    → l.version ≡ version
    → IsSynced version l.public conf (update_forward_map conf.forwards l c).0
unfolding update_forward_map
update_forward_map-IsSynced version conf l c v = record {
  current = v;
  forwards = refl;
  channels = λ j. (update_forward_map_lem conf.forwards l c j 0).0;
  same_kind = refl;
}

new_port_listener-IsSynced :
    (version : ℕ) (conf : Listener) (c : CloseChannels)
    → IsSynced version (has (lit "*") conf.forwards) conf (new_port_listener conf version c).0
unfolding new_port_listener
new_port_listener-IsSynced version conf c =
    update_forward_map-IsSynced version conf
      (record {
        connection_count = 0;
        listen_addr = conf.listen_addr;
        public = has (lit "*") conf.forwards;
        forward_map = [];
        close_channels = [];
        closed = false;
        version = version;
      })
      c refl

-- The listener of a port, if it has one that serves its part of the database.
abbrev pub HasSynced : ℕ → Bool → Listener → Option PortListener → Type 0
HasSynced version kind conf none = ⊥
HasSynced version kind conf (some l) = IsSynced version kind conf l

module _ (listens : ℕ → Bool) (version : ℕ) where
  sync_port-HasSynced :
      (port : ℕ) (conf : Listener) (o : Option PortListener) (m : Map ℕ PortListener)
      (c : CloseChannels)
      → listens port ≡ true
      → HasSynced version
          (kind_of conf o)
          conf
          (get port (sync_port listens version port conf o m c).0)
  unfolding sync_port put_listener new_port_listener
  sync_port-HasSynced port conf none m c h =
      let l = (new_port_listener conf version c).0 in
      let e : get port (sync_port listens version port conf none m c).0 ≡ some l =
        ground (arith, get-put_listener port port l m) in
      subst (HasSynced version (has (lit "*") conf.forwards) conf) (sym e)
        (new_port_listener-IsSynced version conf c)
  sync_port-HasSynced port conf (some l) m c h =
      let l' = (update_forward_map conf.forwards (record l { version = version }) c).0 in
      let e : get port (sync_port listens version port conf (some l) m c).0 ≡ some l' =
        ground (arith, get-put_listener port port l' m) in
      subst (HasSynced version l.public conf) (sym e)
        (update_forward_map-IsSynced version conf (record l { version = version }) c refl)

  get-sync_port :
      (port q : ℕ) (conf : Listener) (o : Option PortListener) (m : Map ℕ PortListener)
      (c : CloseChannels)
      → eqb port q ≡ false
      → get q (sync_port listens version port conf o m c).0 ≡ get q m
  unfolding sync_port put_listener
  get-sync_port port q conf none m c h =
      ground (arith, get-put_listener port q (new_port_listener conf version c).0 m)
  get-sync_port port q conf (some l) m c h = ground (
    arith,
    get-put_listener port q (update_forward_map conf.forwards (record l { version = version }) c).0
        m,
  )

  pub get-sync_ports :
      (q : ℕ) (db : Listeners) (m : Map ℕ PortListener) (c : CloseChannels)
      → get q db ≡ none
      → get q (sync_ports listens version db m c).0 ≡ get q m
  unfolding sync_ports get
  get-sync_ports q [] m c h = refl
  get-sync_ports q ((port, conf) ∷ db) m c h =
      let r = sync_port listens version port conf (get port m) m c in
      ground (arith, get-sync_ports q db r.0 r.1, get-sync_port port q conf (get port m) m c)

  pub sync_ports-HasSynced :
      (q : ℕ) (conf : Listener) (db : Listeners) (m : Map ℕ PortListener) (c : CloseChannels)
      → ((n : ℕ) → listens n ≡ true)
      → IsMap db
      → get q db ≡ some conf
      → HasSynced version
          (kind_of conf (get q m))
          conf
          (get q (sync_ports listens version db m c).0)
  unfolding sync_ports get
  sync_ports-HasSynced q conf [] m c l u h = absurd (ground arith)
  sync_ports-HasSynced q conf ((port, conf') ∷ db) m c l u h =
      let r = sync_port listens version port conf' (get port m) m c in
      elim (Bool-cases (eqb port q)) [
        | inl p ↦
            let same : port ≡ q = (eqb_iff port q).0 p in
            let conf_same : conf' ≡ conf = ground (arith, h, p) in
            let e : get q (sync_ports listens version db r.0 r.1).0 ≡ get port r.0 =
              ground (arith, get-sync_ports q db r.0 r.1, same, u.0) in
            subst (HasSynced version (kind_of conf (get q m)) conf) (sym e) (
              subst (λ x. HasSynced version (kind_of x (get q m)) x (get port r.0)) conf_same
                (subst (λ x. HasSynced version (kind_of conf' (get x m)) conf' (get port r.0)) same
                  (sync_port-HasSynced port conf' (get port m) m c (l port))))
        | inr p ↦
            subst
              (λ o.
                HasSynced version (kind_of conf o) conf
                  (get q (sync_ports listens version db r.0 r.1).0))
              (get-sync_port port q conf' (get port m) m c p)
              (sync_ports-HasSynced q conf db r.0 r.1 l u.1 (ground (arith, h, p)))
      ]

  sync_port-IsMap :
      (port : ℕ) (conf : Listener) (o : Option PortListener) (m : Map ℕ PortListener)
      (c : CloseChannels)
      → IsMap m
      → IsMap (sync_port listens version port conf o m c).0
  unfolding sync_port put_listener
  sync_port-IsMap port conf none m c u =
      ground (arith, put-IsMap port (new_port_listener conf version c).0 m)
  sync_port-IsMap port conf (some l) m c u =
      put-IsMap port (update_forward_map conf.forwards (record l { version = version }) c).0 m u

  pub sync_ports-IsMap :
      (db : Listeners) (m : Map ℕ PortListener) (c : CloseChannels)
      → IsMap m
      → IsMap (sync_ports listens version db m c).0
  unfolding sync_ports
  sync_ports-IsMap [] m c u = u
  sync_ports-IsMap ((port, conf) ∷ db) m c u =
      let r = sync_port listens version port conf (get port m) m c in
      sync_ports-IsMap db r.0 r.1 (sync_port-IsMap port conf (get port m) m c u)

-- The listener, if it has the version.
abbrev pub current : ℕ → Option PortListener → Option PortListener
current version none = none
current version (some l) = if eqb l.version version then some l else none

pub get-drop_unused :
    (closes : ℕ → Bool) (version q : ℕ) (m : Map ℕ PortListener) (c : CloseChannels)
    → ((n : ℕ) → closes n ≡ true)
    → IsMap m
    → get q (drop_unused closes version m c).0 ≡ current version (get q m)
unfolding drop_unused drop_port close get
get-drop_unused closes version q [] c h u = refl
get-drop_unused closes version q ((port, l) ∷ m) c h u =
    ground (arith, get-drop_unused closes version q m c h, h port, eqb_iff port q, u.0)

-- Where a connection to a port goes, by the listeners; and by the database, for a kind of listener.
unfoldable pub route_to : ℕ → Str → Map ℕ PortListener → Option TcpAddr
route_to port source m = elim (get port m) [ none ↦ none | some l ↦ forward_to (accept source l) ]

unfoldable pub routed_to : Str → Option PortListener → Option Listener → Option TcpAddr
routed_to source old none = none
routed_to source old (some conf) = target_of (kind_of conf old) source conf.forwards

pub route-HasSynced :
    (version : ℕ) (source : Str) (kind : Bool) (conf : Listener) (o : Option PortListener)
    → HasSynced version kind conf o
    → elim (current version o) [ none ↦ none | some l ↦ forward_to (accept source l) ]
      ≡ target_of kind source conf.forwards
route-HasSynced version source kind conf none h = absurd h
route-HasSynced version source kind conf (some l) h =
    let e : target_of l.public source l.forward_map ≡ target_of kind source conf.forwards =
      ap (λ b. target_of b source l.forward_map) h.same_kind
      ∙ ap (λ m. target_of kind source m) h.forwards in
    ground (arith, h.current, accept_lem source l h.channels, e)
