-- ===== src/Proxy/Rates/Limits.antt =====
-- The limit on concurrent requests in every state that the server can reach, and the end of a request.
use mulch.Prelude.{ℕ, ◌≤◌, ◌<◌, ◌≡◌, ◌≢◌, none, [], arith, nat_eq}
use mulch.Text.{str_eq}
use mulch.Proxy.Rates.{RateControllerConfig, new_rate_controller, free_slot, finish_request}
use mulch.Proxy.Rates.Steps.{Server, count, finished, finish, slots_at, Steps}
use mulch.Proxy.Rates.Invariant.{has_entry, new-IsSound, Steps-IsSound}

abbrev pub started : RateControllerConfig → Server
started c = record { rc = new_rate_controller c; running = [] }

-- Whatever arrives, finishes or is swept, with a limit set, each entry is held by as many running
-- requests as its slots count, and by no more than the limit allows.
pub running_bounded :
    (c : RateControllerConfig) (s : Server) (a : ℕ)
    → 0 < s.rc.config.concurrent_max_requests
    → Steps (started c) s
    → (slots_at a s.rc ≡ count a s.running)
      × (count a s.running ≤ s.rc.config.concurrent_max_requests)
running_bounded c s a limited r =
    let i = Steps-IsSound (started c) s r (new-IsSound c) in
    (i.counted a limited, omega (arith, i.counted a limited, i.bounded a limited))

-- The deferred `FinishRequest` of a running request always finds a value in its channel: in any
-- state that the server can reach, it returns.
pub finish_returns :
    (c : RateControllerConfig) (s : Server) (a : ℕ)
    → Steps (started c) s
    → 0 < count a s.running
    → finish a s ≢ none
unfolding finish finished finish_request free_slot has_entry slots_at
finish_returns c s a r running =
    let i = Steps-IsSound (started c) s r (new-IsSound c) in
    ground (arith, i.allocated a, i.held a running, i.counted a)
