-- ===== src/Proxy/Rates.antt =====
-- rate_controller.go of the proxy. Entries are objects that requests keep a pointer to, so they stand
-- in a heap by address. golang.org/x/time/rate is represented by the answer of `Wait`. A step that
-- would wait for a channel has no result yet (`none`).
pub mod Steps
pub mod Invariant
pub mod Limits
mod Tests
use mulch.Prelude.{
  ℕ, suc, ◌+◌, ◌-◌, Bool, true, false, not, ◌&&◌, ◌||◌, Option, none, some, List, [], ◌∷◌,
  if◌then◌else◌, ltb, eqb, nat_eq,
}
use mulch.Text.{Str, str_eq}
use mulch.GoMap.{Map, get, has, put}

pub record RateControllerConfig : Type 0 where
  pub concurrent_max_requests : ℕ
  pub rate_enable : Bool
  pub vip_list : Map Str Bool

-- `slots` is the number of values in `currentRequestSlots`.
pub record RateControllerEntry : Type 0 where
  pub slots : ℕ
  pub has_limiter : Bool
  pub last_use_time : ℕ

-- `entries` holds addresses of `heap`; `next` is the next free one.
pub record RateController : Type 0 where
  pub config : RateControllerConfig
  pub entries : Map Str ℕ
  pub heap : Map ℕ RateControllerEntry
  pub next : ℕ
  pub too_many_requests : ℕ

-- How the select of `IsAllowed` ends, and what the limiter's `Wait` answers: a token, an error while
-- the request lives, or an error after it was cancelled.
pub data Select : Type 0 where
  sent timed_out : Select

pub data Wait : Type 0 where
  token too_long cancelled : Wait

pub record Allowed : Type 0 where
  pub allowed : Bool
  pub need_finish : Bool

-- `NewRateController`
unfoldable pub new_rate_controller : RateControllerConfig → RateController
new_rate_controller config = record {
  config = config;
  entries = [];
  heap = [];
  next = 0;
  too_many_requests = 0;
}

unfoldable pub is_active : RateController → Bool
is_active rc = ltb 0 rc.config.concurrent_max_requests || rc.config.rate_enable

unfoldable pub is_vip : Str → RateController → Bool
is_vip ip rc = has ip rc.config.vip_list

unfoldable pub used : ℕ → RateControllerEntry → RateControllerEntry
used now e = record e { last_use_time = now }

-- `entry.lastUseTime = time.Now()`
unfoldable pub touch : ℕ → ℕ → Map ℕ RateControllerEntry → Map ℕ RateControllerEntry
touch now a h = elim (get a h) [ none ↦ h | some e ↦ put a (used now e) h ]

unfoldable pub new_entry : ℕ → RateController → RateControllerEntry
new_entry now rc = record { slots = 0; has_limiter = rc.config.rate_enable; last_use_time = now }

unfoldable pub found_entry : Str → ℕ → RateController → Option ℕ → RateController × ℕ
found_entry ip now rc (some a) = (record rc { heap = touch now a rc.heap }, a)
found_entry ip now rc none = (
  record rc {
    entries = put ip rc.next rc.entries;
    heap = put rc.next (new_entry now rc) rc.heap;
    next = suc rc.next;
  },
  rc.next,
)

-- `GetEntry`
unfoldable pub get_entry : Str → ℕ → RateController → RateController × ℕ
get_entry ip now rc = found_entry ip now rc (get ip rc.entries)

-- `Clean`
unfoldable pub unused : ℕ → ℕ → Option RateControllerEntry → Bool
unused unused_time now none = false
unused unused_time now (some e) = ltb unused_time (now - e.last_use_time)

unfoldable pub clean_entries : ℕ → ℕ → Map ℕ RateControllerEntry → Map Str ℕ → Map Str ℕ
clean_entries unused_time now h [] = []
clean_entries unused_time now h ((ip, a) ∷ m) =
    let rest = clean_entries unused_time now h m in
    if unused unused_time now (get a h) then rest else (ip, a) ∷ rest

unfoldable pub clean : ℕ → ℕ → RateController → RateController
clean unused_time now rc = record rc { entries = clean_entries unused_time now rc.heap rc.entries }

-- The first part of `IsAllowed`. The channel takes a value only when it is not full; the timer may
-- win either way.
unfoldable pub take_slot :
    Select → ℕ → RateControllerEntry → RateController → Option (RateController × Bool)
take_slot s a e rc =
    if ltb 0 rc.config.concurrent_max_requests
    then elim s [
      | sent ↦
          (if ltb e.slots rc.config.concurrent_max_requests
            then some (record rc { heap = put a (record e { slots = suc e.slots }) rc.heap }, true)
            else none)
      | timed_out ↦ some (record rc { too_many_requests = suc rc.too_many_requests }, false)
    ]
    else some (rc, true)

unfoldable pub wait_token :
    Wait → RateControllerEntry → RateController × Bool → RateController × Allowed
wait_token w e (rc, false) = (rc, record { allowed = false; need_finish = false })
wait_token w e (rc, true) =
    if e.has_limiter
    then elim w [
      | token ↦ (rc, record { allowed = true; need_finish = true })
      | too_long ↦ (
        record rc { too_many_requests = suc rc.too_many_requests },
        record { allowed = false; need_finish = true },
      )
      | cancelled ↦ (rc, record { allowed = true; need_finish = true })
    ]
    else (rc, record { allowed = true; need_finish = true })

unfoldable pub ask_token :
    Wait → RateControllerEntry → Option (RateController × Bool) → Option (RateController × Allowed)
ask_token w e none = none
ask_token w e (some r) = some (wait_token w e r)

-- `IsAllowed`
unfoldable pub is_allowed : Select → Wait → ℕ → RateController → Option (RateController × Allowed)
is_allowed s w a rc = elim (get a rc.heap) [
  | none ↦ none
  | some e ↦ ask_token w e (take_slot s a e rc)
]

unfoldable pub free_slot : ℕ → RateControllerEntry → RateController → Option RateController
free_slot a e rc =
    if ltb 0 rc.config.concurrent_max_requests
    then (if ltb 0 e.slots
        then some (record rc { heap = put a (record e { slots = e.slots - 1 }) rc.heap })
        else none)
    else some rc

-- `FinishRequest`
unfoldable pub finish_request : ℕ → RateController → Option RateController
finish_request a rc = elim (get a rc.heap) [ none ↦ none | some e ↦ free_slot a e rc ]
