-- ===== src/Hub/Tests.antt =====
-- A hub with two clients, and the theorems about it there.
use mulch.Prelude.{◌≡◌, ◌≢◌, ◌∷◌, [], refl, none, some, true, false, List, nat_eq}
use mulch.GoMap
use mulch.GoMap.Laws.{IsMap}
use mulch.Text.{lit, str_eq, str_beq}
use mulch.Message.{Message, match_target}
use mulch.Hub.{
  HubClient, Hub, new_hub, Event, handle, run, add_client, drop_client, close_messages, send_all,
  send, wants, with_heap,
}
use mulch.Hub.Safe.{is_open, run_never_panics, registered_open}
use mulch.Hub.Delivery.{delivered, broadcast_lem}

abbrev info : Message
info = record { time = 1; kind = lit "INFO"; target = lit "web"; message = lit "hello" }

abbrev two_clients : List Event
two_clients =
    Event.register [] (lit "web") false
    ∷ Event.register [] (lit "db") true
    ∷ Event.unregister 1
    ∷ Event.unregister 1
    ∷ []

abbrev web_client : HubClient
web_client = record {
  client_info = [];
  target = lit "web";
  trace = false;
  closed = false;
  received = [];
}

abbrev db_client : HubClient
db_client = record {
  client_info = [];
  target = lit "db";
  trace = true;
  closed = true;
  received = [];
}

abbrev hub : Hub
hub = record { clients = (0, true) ∷ []; heap = (0, web_client) ∷ (1, db_client) ∷ []; next = 2 }

abbrev hub_after : Hub
hub_after = record hub {
  heap = (0, record web_client { received = info ∷ [] }) ∷ (1, db_client) ∷ [];
}

first_hub : run two_clients new_hub ≡ some hub
unfolding run handle add_client drop_client close_messages new_hub GoMap.has GoMap.get GoMap.put
    GoMap.remove
first_hub = refl

unique_clients : IsMap hub.clients
unfolding GoMap.get
unique_clients = (refl, tt)

send_info : handle (Event.broadcast info) hub ≡ some hub_after
unfolding handle with_heap send_all send wants match_target GoMap.get GoMap.put str_beq
send_info = refl

run_never_panics_example : run two_clients new_hub ≢ none
run_never_panics_example = run_never_panics two_clients

first_registered : GoMap.has 0 hub.clients ≡ true
unfolding GoMap.has
first_registered = refl

registered_open_example : is_open (GoMap.get 0 hub.heap) ≡ true
registered_open_example = registered_open two_clients hub 0 first_hub first_registered

broadcast_example :
    (GoMap.get 1 hub_after.heap ≡ delivered info (GoMap.has 1 hub.clients) (GoMap.get 1 hub.heap))
    × (hub_after.clients ≡ hub.clients)
broadcast_example = broadcast_lem info hub hub_after 1 unique_clients send_info
