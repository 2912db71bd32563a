-- ===== src/Hub/Delivery.antt =====
-- Who receives a broadcast.
use mulch.Prelude.{
  ℕ, ◌≡◌, refl, Bool, true, false, not, ◌==◌, ◌||◌, ◌&&◌, Option, none, some, [], ◌∷◌, ◌++◌, arith,
  if◌then◌else◌, nat_eq, eqb, Option-cases, inl, inr,
}
use mulch.Text.{lit, str_eq, str_beq_iff}
use mulch.GoMap.{Map, get, has}
use mulch.GoMap.Laws.{IsMap, has-eq-get}
use mulch.Message.{Message, match_target}
use mulch.Hub.{HubClient, Hub, Event, wants, send, send_all, with_heap, handle}
use mulch.Hub.Safe.{get-put_client}

-- A message is for the clients of its target, or for all if it has none, and for those of all targets;
-- a trace only for those who want traces.
abbrev pub is_for : Message → HubClient → Bool
is_for m c =
    (m.target == [] || m.target == c.target || c.target == lit "*")
    && (c.trace || not (m.kind == lit "TRACE"))

wants-is_for : (m : Message) (c : HubClient) → wants m c ≡ is_for m c
unfolding wants match_target
wants-is_for m c = ground (arith, str_beq_iff m.target c.target, str_beq_iff c.target m.target)

-- The client after a message, if the hub has it registered.
unfoldable pub delivered : Message → Bool → Option HubClient → Option HubClient
delivered m registered none = none
delivered m registered (some c) =
    some (if registered && is_for m c then record c { received = c.received ++ (m ∷ []) } else c)

send-delivered :
    (i j : ℕ) (m : Message) (o : Option HubClient) (heap heap' : Map ℕ HubClient)
    → get i heap ≡ o
    → send i m o heap ≡ some heap'
    → get j heap' ≡ delivered m (eqb i j) (get j heap)
unfolding send delivered
send-delivered i j m none heap heap' g e = elim (Option-cases (get j heap)) [
  | inl n ↦ ground arith
  | inr (c, n) ↦ ground arith
]
send-delivered i j m (some c) heap heap' g e = ground (
  arith,
  get-put_client i j (record c { received = c.received ++ (m ∷ []) }) heap,
  wants-is_for m c,
)

delivered-delivered :
    (m : Message) (a b : Bool) (o : Option HubClient)
    → (a && b) ≡ false
    → delivered m b (delivered m a o) ≡ delivered m (if a then true else b) o
unfolding delivered
delivered-delivered m true true o h = ground arith
delivered-delivered m true false none h = refl
delivered-delivered m true false (some c) h = refl
delivered-delivered m false b none h = refl
delivered-delivered m false b (some c) h = refl

delivered-false : (m : Message) (o : Option HubClient) → delivered m false o ≡ o
unfolding delivered
delivered-false m none = refl
delivered-false m (some c) = refl

not-both : (i j : ℕ) (cs : Map ℕ Bool) → get i cs ≡ none → (eqb i j && has j cs) ≡ false
not-both i j cs h = ground (arith, has-eq-get j cs, has-eq-get i cs, h)

send_all-delivered :
    (j : ℕ) (m : Message) (cs : Map ℕ Bool) (heap heap' : Map ℕ HubClient)
    → IsMap cs
    → send_all m cs heap ≡ some heap'
    → get j heap' ≡ delivered m (has j cs) (get j heap)
unfolding send_all has
send_all-delivered j m [] heap heap' u e = ground (arith, delivered-false m (get j heap))
send_all-delivered j m ((i, b) ∷ cs) heap heap' u e =
    elim (Option-cases (send i m (get i heap) heap)) [
      | inl n ↦ ground arith
      | inr (next, n) ↦ ground (
        arith,
        send_all-delivered j m cs next heap' u.1,
        send-delivered i j m (get i heap) heap next refl n,
        delivered-delivered m (eqb i j) (has j cs) (get j heap) (not-both i j cs u.0),
      )
    ]

-- A broadcast that does not panic appends the message, once, to what each registered client has received that it is for: a client of the message's target or of all targets, any client if the message has no target, and only one that wants traces if it is a trace. It touches no other client, and the set of the registered clients stays the same. The hub holds each client once.
pub broadcast_lem :
    (m : Message) (h h' : Hub) (j : ℕ)
    → IsMap h.clients
    → handle (Event.broadcast m) h ≡ some h'
    → (get j h'.heap ≡ delivered m (has j h.clients) (get j h.heap)) × (h'.clients ≡ h.clients)
unfolding handle with_heap
broadcast_lem m h h' j u e = elim (Option-cases (send_all m h.clients h.heap)) [
  | inl n ↦ ground arith
  | inr (heap, n) ↦ ground (arith, send_all-delivered j m h.clients h.heap heap u n)
]
