-- ===== src/Hub.antt =====
-- cmd/mulchd/server/hub.go: clients that receive the server's messages. A client is an object known by
-- its number; what it was sent stands in `received`. `Run` handles one event at a time, so the hub is
-- a run over the sequence of its events; sending to a closed channel and closing one twice panic.
pub mod Safe
pub mod Delivery
mod Tests
use mulch.Prelude.{
  ℕ, suc, Bool, true, false, not, ◌&&◌, Option, none, some, List, [], ◌∷◌, ◌++◌, if◌then◌else◌,
  ◌==◌, nat_eq,
}
use mulch.Text.{Str, str_eq}
use mulch.GoMap.{Map, get, has, put, remove}
use mulch.Message.{Message, match_target, message_trace}

pub record HubClient : Type 0 where
  pub client_info : Str
  pub target : Str
  pub trace : Bool
  pub closed : Bool
  pub received : List Message

-- `heap` holds the clients that `Register` created, `next` the number of the next one.
pub record Hub : Type 0 where
  pub clients : Map ℕ Bool
  pub heap : Map ℕ HubClient
  pub next : ℕ

-- `NewHub`
unfoldable pub new_hub : Hub
new_hub = record { clients = []; heap = []; next = 0 }

-- What a client does to the hub or to itself.
pub data Event : Type 0 where
  register : Str → Str → Bool → Event
  unregister : ℕ → Event
  broadcast : Message → Event
  set_target : ℕ → Str → Event

-- `Register`, and its case of `Run`.
unfoldable pub add_client : Str → Str → Bool → Hub → Hub
add_client info target trace h = record {
  clients = put h.next true h.clients;
  heap =
      put h.next
        (record {
          client_info = info;
          target = target;
          trace = trace;
          closed = false;
          received = [];
        })
        h.heap;
  next = suc h.next;
}

-- `close(client.Messages)`
unfoldable pub close_messages : ℕ → Option HubClient → Hub → Option Hub
close_messages i none h = none
close_messages i (some c) h =
    if c.closed then none else some (record h { heap = put i (record c { closed = true }) h.heap })

-- The case `h.unregister` of `Run`; `none` is a panic.
unfoldable pub drop_client : ℕ → Hub → Option Hub
drop_client i h =
    if has i h.clients
    then close_messages i (get i h.heap) (record h { clients = remove i h.clients })
    else some h

-- The filters of a broadcast.
unfoldable pub wants : Message → HubClient → Bool
wants m c = match_target c.target false m && not ((m.kind == message_trace) && not c.trace)

-- `client.Messages <- message`, behind the filters.
unfoldable pub send : ℕ → Message → Option HubClient → Map ℕ HubClient → Option (Map ℕ HubClient)
send i m none heap = none
send i m (some c) heap =
    if wants m c
    then (if c.closed
        then none
        else some (put i (record c { received = c.received ++ (m ∷ []) }) heap))
    else some heap

-- The case `h.broadcast` of `Run`.
unfoldable pub send_all : Message → Map ℕ Bool → Map ℕ HubClient → Option (Map ℕ HubClient)
send_all m [] heap = some heap
send_all m ((i, b) ∷ cs) heap = elim (send i m (get i heap) heap) [
  | none ↦ none
  | some heap' ↦ send_all m cs heap'
]

unfoldable pub with_heap : Hub → Option (Map ℕ HubClient) → Option Hub
with_heap h none = none
with_heap h (some heap) = some (record h { heap = heap })

-- `SetTarget`
unfoldable pub change_target : ℕ → Str → Hub → Hub
change_target i target h = elim (get i h.heap) [
  | none ↦ h
  | some c ↦ record h { heap = put i (record c { target = target }) h.heap }
]

unfoldable pub handle : Event → Hub → Option Hub
handle (Event.register info target trace) h = some (add_client info target trace h)
handle (Event.unregister i) h = drop_client i h
handle (Event.broadcast m) h = with_heap h (send_all m h.clients h.heap)
handle (Event.set_target i target) h = some (change_target i target h)

-- `Run`
unfoldable pub run : List Event → Hub → Option Hub
run [] h = some h
run (e ∷ es) h = elim (handle e h) [ none ↦ none | some h' ↦ run es h' ]
