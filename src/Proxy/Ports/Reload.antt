-- ===== src/Proxy/Ports/Reload.antt =====
-- Where connections go after `ReloadPorts`.
use mulch.Prelude.{
  ℕ, suc, ◌≤◌, ◌≡◌, ◌≢◌, refl, ◌∙◌, Bool, true, false, Option, none, some, [], ◌∷◌, arith, all,
  ◌==◌, leb, nat_eq, Option-cases, inl, inr,
}
use mulch.GoMap.{Map, get, put}
use mulch.GoMap.Laws.{IsMap}
use mulch.Text.{Str, lit, str_eq}
use mulch.Tcp.{Forwarder, Listener, Listeners}
use mulch.Proxy.Ports.{
  CloseChannels, PortListener, PortServer, PortFile, content, load, update_forward_map,
  new_port_listener, close, put_listener, sync_port, sync_ports, drop_port, drop_unused,
  refresh_listeners, reload_ports,
}
use mulch.Proxy.Ports.Refresh.{
  kind_of, current, sync_ports-IsMap, sync_ports-HasSynced, get-sync_ports, get-drop_unused,
  route-HasSynced, route_to, routed_to,
}

-- No listener is newer than the version.
abbrev pub is_old : ℕ → Map ℕ PortListener → Bool
is_old version m = all (λ e. leb e.1.version version) m

-- What holds of the listeners between two reloads.
pub record IsServer (s : PortServer) : Type 0 where
  pub is_map : IsMap s.listeners
  pub old : is_old s.current_version s.listeners ≡ true

is_old-suc : (v : ℕ) (m : Map ℕ PortListener) → is_old v m ≡ true → is_old (suc v) m ≡ true
is_old-suc v [] h = refl
is_old-suc v ((p, l) ∷ m) h = ground (arith, is_old-suc v m)

is_old-put :
    (v p : ℕ) (l : PortListener) (m : Map ℕ PortListener)
    → is_old v m ≡ true
    → l.version ≤ v
    → is_old v (put p l m) ≡ true
unfolding put
is_old-put v p l [] h k = ground arith
is_old-put v p l ((q, o) ∷ m) h k = ground (arith, is_old-put v p l m)

is_old-sync_port :
    (listens : ℕ → Bool) (v port : ℕ) (conf : Listener) (o : Option PortListener)
    (m : Map ℕ PortListener) (c : CloseChannels)
    → is_old v m ≡ true
    → is_old v (sync_port listens v port conf o m c).0 ≡ true
unfolding sync_port put_listener new_port_listener update_forward_map
is_old-sync_port listens v port conf none m c h =
    ground (arith, is_old-put v port (new_port_listener conf v c).0 m)
is_old-sync_port listens v port conf (some l) m c h =
    ground
      (arith, is_old-put v port (update_forward_map conf.forwards (record l { version = v }) c).0 m)

is_old-sync_ports :
    (listens : ℕ → Bool) (v : ℕ) (db : Listeners) (m : Map ℕ PortListener) (c : CloseChannels)
    → is_old v m ≡ true
    → is_old v (sync_ports listens v db m c).0 ≡ true
unfolding sync_ports
is_old-sync_ports listens v [] m c h = h
is_old-sync_ports listens v ((port, conf) ∷ db) m c h =
    let r = sync_port listens v port conf (get port m) m c in
    is_old-sync_ports listens v db r.0 r.1 (is_old-sync_port listens v port conf (get port m) m c h)

module _ (closes : ℕ → Bool) (v : ℕ) where
  is_old-drop_unused :
      (m : Map ℕ PortListener) (c : CloseChannels)
      → is_old v m ≡ true
      → is_old v (drop_unused closes v m c).0 ≡ true
  unfolding drop_unused drop_port close
  is_old-drop_unused [] c h = refl
  is_old-drop_unused ((p, l) ∷ m) c h = ground (arith, is_old-drop_unused m c)

  absent-drop_unused :
      (q : ℕ) (m : Map ℕ PortListener) (c : CloseChannels)
      → get q m ≡ none
      → get q (drop_unused closes v m c).0 ≡ none
  unfolding drop_unused drop_port close get
  absent-drop_unused q [] c h = refl
  absent-drop_unused q ((p, l) ∷ m) c h = ground (arith, absent-drop_unused q m c)

  drop_unused-IsMap :
      (m : Map ℕ PortListener) (c : CloseChannels) → IsMap m → IsMap (drop_unused closes v m c).0
  unfolding drop_unused drop_port close
  drop_unused-IsMap [] c h = tt
  drop_unused-IsMap ((p, l) ∷ m) c h =
      ground (arith, drop_unused-IsMap m c, absent-drop_unused p m c)

drop_unused_all :
    (closes : ℕ → Bool) (v : ℕ) (m : Map ℕ PortListener) (c : CloseChannels)
    → ((n : ℕ) → closes n ≡ true)
    → is_old v m ≡ true
    → (drop_unused closes (suc v) m c).0 ≡ []
unfolding drop_unused drop_port close
drop_unused_all closes v [] c h k = refl
drop_unused_all closes v ((p, l) ∷ m) c h k = ground (arith, drop_unused_all closes v m c h, h p)

old-version :
    (q v : ℕ) (m : Map ℕ PortListener) → is_old v m ≡ true → current (suc v) (get q m) ≡ none
unfolding get
old-version q v [] h = refl
old-version q v ((port, l) ∷ m) h = ground (arith, old-version q v m)

refresh_listeners-IsServer :
    (listens closes : ℕ → Bool) (s : PortServer)
    → IsServer s
    → IsServer (refresh_listeners listens closes s)
unfolding refresh_listeners
refresh_listeners-IsServer listens closes s i =
    let v = suc s.current_version in
    let r = sync_ports listens v s.db s.listeners s.channels in
    record {
      is_map =
          drop_unused-IsMap closes v r.0 r.1
            (sync_ports-IsMap listens v s.db s.listeners s.channels i.is_map);
      old = is_old-drop_unused closes v r.0 r.1 (
          is_old-sync_ports listens v s.db s.listeners s.channels
            (is_old-suc s.current_version s.listeners i.old));
    }

-- `ReloadPorts` keeps one listener for a port and no version above the server's, whatever the file is
-- and whichever ports cannot be opened or closed.
reload_ports-IsServer :
    (listens closes : ℕ → Bool) (file : PortFile) (s : PortServer)
    → IsServer s
    → IsServer (reload_ports listens closes file s)
unfolding reload_ports
reload_ports-IsServer listens closes file s i =
    refresh_listeners-IsServer listens closes (record s { db = (load file).0 })
      (record { is_map = i.is_map; old = i.old })

module _ (listens closes : ℕ → Bool) (s : PortServer) where
  -- After `ReloadPorts` of a readable file, where every port could be opened and closed, a connection
  -- goes where the file says, and to a port that the file does not name nowhere; a listener that was
  -- there stays public or private as it was opened, whatever the file says.
  pub reload_ports_lem :
      (db : Listeners) (q : ℕ) (source : Str)
      → ((n : ℕ) → listens n ≡ true)
      → ((n : ℕ) → closes n ≡ true)
      → IsMap db
      → IsServer s
      → route_to q source (reload_ports listens closes (content db) s).listeners
        ≡ routed_to source (get q s.listeners) (get q db)
  unfolding reload_ports refresh_listeners load route_to routed_to
  reload_ports_lem db q source hl hc u i =
      let version = suc s.current_version in
      let r = sync_ports listens version db s.listeners s.channels in
      let d =
        get-drop_unused closes version q r.0 r.1 hc
          (sync_ports-IsMap listens version db s.listeners s.channels i.is_map) in
      elim (Option-cases (get q db)) [
        | inl n ↦ ground (
          arith,
          d,
          get-sync_ports listens version q db s.listeners s.channels n,
          old-version q s.current_version s.listeners i.old,
        )
        | inr (conf, n) ↦ ground (
          arith,
          d,
          route-HasSynced version source (kind_of conf (get q s.listeners)) conf (get q r.0)
              (sync_ports-HasSynced listens version q conf db s.listeners s.channels hl u n),
        )
      ]

  -- A port whose listener was opened as a private one and that the file makes public lets nobody in:
  -- whatever the source, its connections are closed.
  pub reload_ports-stale_kind :
      (db : Listeners) (q : ℕ) (source : Str) (l : PortListener) (conf : Listener) (f : Forwarder)
      → ((n : ℕ) → listens n ≡ true)
      → ((n : ℕ) → closes n ≡ true)
      → IsMap db
      → IsServer s
      → get q s.listeners ≡ some l
      → l.public ≡ false
      → get q db ≡ some conf
      → conf.forwards ≡ (lit "*", f) ∷ []
      → (lit "*" == source) ≡ false
      → route_to q source (reload_ports listens closes (content db) s).listeners ≡ none
  unfolding routed_to get
  reload_ports-stale_kind db q source l conf f hl hc u i old private new star other =
      reload_ports_lem db q source hl hc u i ∙ rw (old, new, private, star) (ground (arith, other))

  -- A file that cannot be read or decoded makes `ReloadPorts` close every listener that can be closed.
  reload_ports-failed :
      (file : PortFile)
      → ((n : ℕ) → closes n ≡ true)
      → IsServer s
      → (load file).1 ≢ none
      → (reload_ports listens closes file s).listeners ≡ []
  unfolding reload_ports refresh_listeners load sync_ports
  reload_ports-failed PortFile.missing hc i h = absurd (h refl)
  reload_ports-failed PortFile.unreadable hc i h =
      drop_unused_all closes s.current_version s.listeners s.channels hc i.old
  reload_ports-failed PortFile.corrupt hc i h =
      drop_unused_all closes s.current_version s.listeners s.channels hc i.old
  reload_ports-failed (content db) hc i h = absurd (h refl)
