-- ===== src/Hub/Safe.antt =====
-- The hub never panics: it sends to open channels only, and closes a channel once.
use mulch.Prelude.{
  ◌∙◌, ℕ, ◌≡◌, ◌≢◌, refl, Bool, true, false, not, Option, none, some, List, [], ◌∷◌, ◌++◌, arith,
  if◌then◌else◌, nat_eq, eqb, Option-cases, inl, inr,
}
use mulch.Text.{Str, str_eq}
use mulch.GoMap.{Map, get, has, put, remove}
use mulch.GoMap.Laws.{get-put, get-remove, has-eq-get}
use mulch.Message.{Message}
use mulch.Hub.{
  HubClient, Hub, new_hub, Event, add_client, close_messages, drop_client, send, send_all,
  with_heap, change_target, handle, run,
}

-- The client exists and its channel is open.
unfoldable pub is_open : Option HubClient → Bool
is_open none = false
is_open (some c) = not c.closed

-- The clients of a map are open, in a heap.
pub record HasOpen (cs : Map ℕ Bool) (heap : Map ℕ HubClient) : Type 0 where
  pub opened : (i : ℕ) → has i cs ≡ true → is_open (get i heap) ≡ true

pub get-put_client :
    (i j : ℕ) (c : HubClient) (heap : Map ℕ HubClient)
    → get j (put i c heap) ≡ (if eqb i j then some c else get j heap)
get-put_client i j c heap = get-put i j c heap

pub has-put :
    (i j : ℕ) (cs : Map ℕ Bool) → has j (put i true cs) ≡ (if eqb i j then true else has j cs)
has-put i j cs = ground (arith, has-eq-get j (put i true cs), has-eq-get j cs, get-put i j true cs)

pub has-remove :
    (i j : ℕ) (cs : Map ℕ Bool) → has j (remove i cs) ≡ (if eqb i j then false else has j cs)
has-remove i j cs = ground (arith, has-eq-get j (remove i cs), has-eq-get j cs, get-remove i j cs)

add_client-HasOpen :
    (info target : Str) (trace : Bool) (h : Hub)
    → HasOpen h.clients h.heap
    → HasOpen (add_client info target trace h).clients (add_client info target trace h).heap
unfolding add_client is_open
add_client-HasOpen info target trace h o = record {
  opened = λ i p. ground (
    arith,
    o.opened i,
    has-put h.next i h.clients,
    get-put_client h.next i
        (record {
          client_info = info;
          target = target;
          trace = trace;
          closed = false;
          received = [];
        })
        h.heap,
  );
}

drop_client-some : (i : ℕ) (h : Hub) → HasOpen h.clients h.heap → drop_client i h ≢ none
unfolding drop_client close_messages is_open
drop_client-some i h o = ground (arith, o.opened i)

drop_client-HasOpen :
    (i : ℕ) (h h' : Hub)
    → HasOpen h.clients h.heap
    → drop_client i h ≡ some h'
    → HasOpen h'.clients h'.heap
unfolding drop_client close_messages is_open
drop_client-HasOpen i h h' o e = elim (Option-cases (get i h.heap)) [
  | inl n ↦ record {
    opened = λ j p. ground (arith, o.opened i, o.opened j, has-remove i j h.clients);
  }
  | inr (c, g) ↦ record {
    opened = λ j p. ground (
      arith,
      o.opened i,
      o.opened j,
      has-remove i j h.clients,
      get-put_client i j (record c { closed = true }) h.heap,
    );
  }
]

send-some :
    (i : ℕ) (m : Message) (o : Option HubClient) (heap : Map ℕ HubClient)
    → is_open o ≡ true
    → send i m o heap ≢ none
unfolding send is_open
send-some i m none heap p = ground arith
send-some i m (some c) heap p = ground arith

-- Sending leaves the channels as they are.
send-is_open :
    (i j : ℕ) (m : Message) (o : Option HubClient) (heap heap' : Map ℕ HubClient)
    → get i heap ≡ o
    → send i m o heap ≡ some heap'
    → is_open (get j heap') ≡ is_open (get j heap)
unfolding send is_open
send-is_open i j m none heap heap' g e = ground arith
send-is_open i j m (some c) heap heap' g e =
    ground (arith, get-put_client i j (record c { received = c.received ++ (m ∷ []) }) heap)

has-head : (i : ℕ) (b : Bool) (cs : Map ℕ Bool) → has i ((i, b) ∷ cs) ≡ true
unfolding has
has-head i b cs = ground arith

has-tail : (i j : ℕ) (b : Bool) (cs : Map ℕ Bool) → has j cs ≡ true → has j ((i, b) ∷ cs) ≡ true
unfolding has
has-tail i j b cs h = ground arith

send-HasOpen :
    (i : ℕ) (b : Bool) (m : Message) (cs : Map ℕ Bool) (heap heap' : Map ℕ HubClient)
    → HasOpen ((i, b) ∷ cs) heap
    → send i m (get i heap) heap ≡ some heap'
    → HasOpen cs heap'
send-HasOpen i b m cs heap heap' o e = record {
  opened =
      λ j p. send-is_open i j m (get i heap) heap heap' refl e ∙ o.opened j (has-tail i j b cs p);
}

send_all-some :
    (m : Message) (cs : Map ℕ Bool) (heap : Map ℕ HubClient)
    → HasOpen cs heap
    → send_all m cs heap ≢ none
unfolding send_all
send_all-some m [] heap o = ground arith
send_all-some m ((i, b) ∷ cs) heap o = elim (Option-cases (send i m (get i heap) heap)) [
  | inl e ↦ ground (arith, send-some i m (get i heap) heap, o.opened i, has-head i b cs)
  | inr (heap', e) ↦
      rw (e, send_all) (send_all-some m cs heap' (send-HasOpen i b m cs heap heap' o e))
]

send_all-is_open :
    (j : ℕ) (m : Message) (cs : Map ℕ Bool) (heap heap' : Map ℕ HubClient)
    → send_all m cs heap ≡ some heap'
    → is_open (get j heap') ≡ is_open (get j heap)
unfolding send_all
send_all-is_open j m [] heap heap' e = ground arith
send_all-is_open j m ((i, b) ∷ cs) heap heap' e = elim (Option-cases (send i m (get i heap) heap)) [
  | inl n ↦ ground arith
  | inr (next, n) ↦
      ground (arith, send_all-is_open j m cs next heap', send-is_open i j m (get i heap) heap next)
]

change_target-HasOpen :
    (i : ℕ) (target : Str) (h : Hub)
    → HasOpen h.clients h.heap
    → HasOpen (change_target i target h).clients (change_target i target h).heap
unfolding change_target is_open
change_target-HasOpen i target h o = elim (Option-cases (get i h.heap)) [
  | inl e ↦ record { opened = λ j p. ground (arith, o.opened j) }
  | inr (c, e) ↦ record {
    opened = λ j p.
        ground
          (arith, o.opened j, o.opened i, get-put_client i j (record c { target = target }) h.heap);
  }
]

handle-some : (e : Event) (h : Hub) → HasOpen h.clients h.heap → handle e h ≢ none
unfolding handle with_heap
handle-some (Event.register info target trace) h o = ground arith
handle-some (Event.unregister i) h o = drop_client-some i h o
handle-some (Event.broadcast m) h o = ground (arith, send_all-some m h.clients h.heap o)
handle-some (Event.set_target i target) h o = ground arith

handle-HasOpen :
    (e : Event) (h h' : Hub)
    → HasOpen h.clients h.heap
    → handle e h ≡ some h'
    → HasOpen h'.clients h'.heap
unfolding handle with_heap
handle-HasOpen (Event.register info target trace) h h' o e = record {
  opened = λ j p. ground (arith, (add_client-HasOpen info target trace h o).opened j);
}
handle-HasOpen (Event.unregister i) h h' o e = drop_client-HasOpen i h h' o e
handle-HasOpen (Event.broadcast m) h h' o e = elim (Option-cases (send_all m h.clients h.heap)) [
  | inl n ↦ ground arith
  | inr (heap, n) ↦ record {
    opened = λ j p. ground (arith, o.opened j, send_all-is_open j m h.clients h.heap heap n);
  }
]
handle-HasOpen (Event.set_target i target) h h' o e = record {
  opened = λ j p. ground (arith, (change_target-HasOpen i target h o).opened j);
}

new-HasOpen : HasOpen new_hub.clients new_hub.heap
unfolding new_hub has
new-HasOpen = record { opened = λ i p. ground arith }

run-HasOpen :
    (es : List Event) (h h' : Hub)
    → HasOpen h.clients h.heap
    → run es h ≡ some h'
    → HasOpen h'.clients h'.heap
unfolding run
run-HasOpen [] h h' o e = record { opened = λ j p. ground (arith, o.opened j) }
run-HasOpen (x ∷ es) h h' o e = elim (Option-cases (handle x h)) [
  | inl n ↦ record { opened = λ j p. ground arith }
  | inr (t, n) ↦ run-HasOpen es t h' (handle-HasOpen x h t o n) (ground (arith, e, n))
]

run-some : (es : List Event) (h : Hub) → HasOpen h.clients h.heap → run es h ≢ none
unfolding run
run-some [] h o = ground arith
run-some (x ∷ es) h o = elim (Option-cases (handle x h)) [
  | inl n ↦ ground (arith, handle-some x h o n)
  | inr (t, n) ↦ rw (n, run) (run-some es t (handle-HasOpen x h t o n))
]

-- Whatever clients come, go, change their target or are sent, in any order and even if one leaves
-- twice, the hub of `NewHub` never sends to a closed channel and never closes a channel twice.
pub run_never_panics : (es : List Event) → run es new_hub ≢ none
run_never_panics es = run-some es new_hub new-HasOpen

-- After any run of a hub, the channel of each registered client is open.
pub registered_open :
    (es : List Event) (h : Hub) (i : ℕ)
    → run es new_hub ≡ some h
    → has i h.clients ≡ true
    → is_open (get i h.heap) ≡ true
registered_open es h i e p = (run-HasOpen es new_hub h new-HasOpen e).opened i p
