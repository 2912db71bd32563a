-- ===== src/Proxy/Ports/Channels.antt =====
-- The close channels of a listener after `UpdateForwardMap`.
use mulch.Prelude.{
  ℕ, ◌≡◌, refl, Bool, true, false, not, ◌&&◌, ◌||◌, none, some, List, [], ◌∷◌, arith, any, all,
  if◌then◌else◌, ◌==◌, eqb, Option-cases, inl, inr,
}
use mulch.GoMap.{Map, get, has, put, keys}
use mulch.GoMap.Laws.{get-put, has-eq-get}
use mulch.Text.{Str, str_eq, str_beq_iff}
use mulch.Tcp.{Forwarder}
use mulch.Proxy.Ports.{
  CloseChannels, PortListener, allowed_forwards, add_channel, add_missing, close_old,
  update_forward_map,
}

-- A key of the forward map.
abbrev pub is_allowed : Str → Map Str Forwarder → Bool
is_allowed k forwards = has k (allowed_forwards forwards)

pub is_closed : ℕ → CloseChannels → Bool
is_closed n c = any (eqb n) c.closed

-- The channel stands under a key that is not allowed.
unfoldable pub is_dropped : ℕ → Map Str Bool → Map Str ℕ → Bool
is_dropped n allowed [] = false
is_dropped n allowed ((k, i) ∷ m) = (eqb n i && not (has k allowed)) || is_dropped n allowed m

has-put {ℓ} :
    {V : Type ℓ} (k j : Str) (v : V) (m : Map Str V)
    → has j (put k v m) ≡ (if k == j then true else has j m)
has-put k j v m = ground (arith, has-eq-get j (put k v m), has-eq-get j m, get-put k j v m)

has-keys : (k : Str) (m : Map Str Bool) → any (λ j. j == k) (keys m) ≡ has k m
unfolding keys has
has-keys k [] = refl
has-keys k ((j, b) ∷ m) = ground (arith, has-keys k m)

has-add_missing :
    (k : Str) (ks : List Str) (m : Map Str ℕ) (c : CloseChannels)
    → has k (add_missing ks m c).0 ≡ (any (λ j. j == k) ks || has k m)
unfolding add_missing add_channel
has-add_missing k [] m c = refl
has-add_missing k (j ∷ ks) m c = ground (
  arith,
  has-add_missing k ks (add_channel j m c).0 (add_channel j m c).1,
  has-put j k c.next m,
  str_beq_iff j k,
)

get-add_missing :
    (k : Str) (n : ℕ) (ks : List Str) (m : Map Str ℕ) (c : CloseChannels)
    → get k m ≡ some n
    → get k (add_missing ks m c).0 ≡ some n
unfolding add_missing add_channel
get-add_missing k n [] m c h = h
get-add_missing k n (j ∷ ks) m c h = ground (
  arith,
  get-add_missing k n ks (add_channel j m c).0 (add_channel j m c).1,
  get-put j k c.next m,
  has-eq-get j m,
  str_beq_iff j k,
)

get-close_old :
    (k : Str) (allowed : Map Str Bool) (m : Map Str ℕ) (c : CloseChannels)
    → get k (close_old allowed m c).0 ≡ (if has k allowed then get k m else none)
unfolding close_old get
get-close_old k allowed [] c = ground arith
get-close_old k allowed ((j, n) ∷ m) c =
    ground (arith, get-close_old k allowed m c, str_beq_iff j k)

is_closed-close_old :
    (n : ℕ) (allowed : Map Str Bool) (m : Map Str ℕ) (c : CloseChannels)
    → is_closed n (close_old allowed m c).1 ≡ (is_closed n c || is_dropped n allowed m)
unfolding close_old is_closed is_dropped
is_closed-close_old n allowed [] c = ground arith
is_closed-close_old n allowed ((j, i) ∷ m) c = ground (arith, is_closed-close_old n allowed m c)

closed-add_missing :
    (n : ℕ) (ks : List Str) (m : Map Str ℕ) (c : CloseChannels)
    → is_closed n (add_missing ks m c).1 ≡ is_closed n c
unfolding add_missing add_channel is_closed
closed-add_missing n [] m c = refl
closed-add_missing n (j ∷ ks) m c =
    ground (arith, closed-add_missing n ks (add_channel j m c).0 (add_channel j m c).1)

is_dropped-put :
    (n i : ℕ) (k : Str) (allowed : Map Str Bool) (m : Map Str ℕ)
    → has k allowed ≡ true
    → has k m ≡ false
    → is_dropped n allowed (put k i m) ≡ is_dropped n allowed m
unfolding is_dropped put has
is_dropped-put n i k allowed [] h p = ground arith
is_dropped-put n i k allowed ((j, v) ∷ m) h p = ground (arith, is_dropped-put n i k allowed m)

is_dropped-add_missing :
    (n : ℕ) (ks : List Str) (allowed : Map Str Bool) (m : Map Str ℕ) (c : CloseChannels)
    → all (λ k. has k allowed) ks ≡ true
    → is_dropped n allowed (add_missing ks m c).0 ≡ is_dropped n allowed m
unfolding add_missing add_channel
is_dropped-add_missing n [] allowed m c sub = refl
is_dropped-add_missing n (j ∷ ks) allowed m c sub = ground (
  arith,
  is_dropped-add_missing n ks allowed (add_channel j m c).0 (add_channel j m c).1,
  is_dropped-put n c.next j allowed m,
)

has-later : (j k : Str) (b : Bool) (m : Map Str Bool) → has k m ≡ true → has k ((j, b) ∷ m) ≡ true
unfolding has
has-later j k b m h = ground arith

has-first : (j : Str) (b : Bool) (m : Map Str Bool) → has j ((j, b) ∷ m) ≡ true
unfolding has
has-first j b m = ground (arith, str_beq_iff j j)

all-keys :
    (m allowed : Map Str Bool)
    → ((k : Str) → has k m ≡ true → has k allowed ≡ true)
    → all (λ k. has k allowed) (keys m) ≡ true
unfolding keys
all-keys [] allowed sub = refl
all-keys ((j, b) ∷ m) allowed sub =
    ground (arith, sub j (has-first j b m), all-keys m allowed (λ k h. sub k (has-later j k b m h)))

-- A key that has a channel and is allowed keeps it.
get-update_forward_map :
    (forwards : Map Str Forwarder) (l : PortListener) (c : CloseChannels) (k : Str)
    → (if has k l.close_channels && is_allowed k forwards
        then get k (update_forward_map forwards l c).0.close_channels
        else get k l.close_channels)
      ≡ get k l.close_channels
unfolding update_forward_map
get-update_forward_map forwards l c k =
    let allowed = allowed_forwards forwards in
    let added = add_missing (keys allowed) l.close_channels c in
    elim (Option-cases (get k l.close_channels)) [
      | inl p ↦ ground (arith, has-eq-get k l.close_channels)
      | inr (n, p) ↦ ground (
        arith,
        get-close_old k allowed added.0 added.1,
        get-add_missing k n (keys allowed) l.close_channels c p,
      )
    ]

pub update_forward_map_lem :
    (forwards : Map Str Forwarder) (l : PortListener) (c : CloseChannels) (k : Str) (n : ℕ)
    → let (l', c') = update_forward_map forwards l c in
      (has k l'.close_channels ≡ is_allowed k forwards)
      × ((if has k l.close_channels && is_allowed k forwards
            then get k l'.close_channels
            else get k l.close_channels)
          ≡ get k l.close_channels)
      × (is_closed n c'
          ≡ (is_closed n c || is_dropped n (allowed_forwards forwards) l.close_channels))
unfolding update_forward_map
update_forward_map_lem forwards l c k n =
    let allowed = allowed_forwards forwards in
    let added = add_missing (keys allowed) l.close_channels c in
    (
      ground (
        arith,
        has-eq-get k (close_old allowed added.0 added.1).0,
        get-close_old k allowed added.0 added.1,
        has-eq-get k added.0,
        has-add_missing k (keys allowed) l.close_channels c,
        has-keys k allowed,
      ),
      get-update_forward_map forwards l c k,
      ground (
        arith,
        is_closed-close_old n allowed added.0 added.1,
        is_dropped-add_missing n (keys allowed) allowed l.close_channels c,
        all-keys allowed allowed (λ j h. h),
        closed-add_missing n (keys allowed) l.close_channels c,
      ),
    )
