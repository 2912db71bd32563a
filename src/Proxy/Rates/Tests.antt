-- ===== src/Proxy/Rates/Tests.antt =====
-- A run of the rate controller with a limit of one request, and the theorems about it there.
use mulch.Prelude.{◌≡◌, ◌≢◌, ◌≤◌, ◌<◌, ◌∷◌, [], refl, none, some, true, false, arith}
use mulch.GoMap
use mulch.Text.{lit, str_eq, str_beq}
use mulch.Proxy.Rates.{
  RateControllerConfig, RateControllerEntry, Select, Wait, new_rate_controller, get_entry,
  found_entry, new_entry, touch, used, is_allowed, take_slot, ask_token, wait_token,
}
use mulch.Proxy.Rates.Steps.{Server, arrive, arrived, count, finish, slots_at, Step, Steps}
use mulch.Proxy.Rates.Limits.{started, running_bounded, finish_returns}

abbrev one_request : RateControllerConfig
one_request = record { concurrent_max_requests = 1; rate_enable = false; vip_list = [] }

abbrev busy_entry : RateControllerEntry
busy_entry = record { slots = 1; has_limiter = false; last_use_time = 5 }

-- One request runs.
abbrev busy : Server
busy = record {
  rc = record {
    config = one_request;
    entries = (lit "10.0.0.1", 0) ∷ [];
    heap = (0, busy_entry) ∷ [];
    next = 1;
    too_many_requests = 0;
  };
  running = 0 ∷ [];
}

request_arrives :
    arrive (lit "10.0.0.1") 5 Select.sent Wait.token (started one_request) ≡ some (busy, true)
unfolding arrive arrived get_entry found_entry new_entry is_allowed take_slot ask_token wait_token
    GoMap.get GoMap.put new_rate_controller
request_arrives = refl

-- A second one of the same address gets no slot before the timer.
second_times_out : arrive (lit "10.0.0.1") 6 Select.sent Wait.token busy ≡ none
unfolding arrive arrived get_entry found_entry touch used is_allowed take_slot ask_token GoMap.get
    GoMap.put str_beq
second_times_out = refl

busy-Steps : Steps (started one_request) busy
busy-Steps =
    Steps.then (started one_request) (started one_request) busy (Steps.here (started one_request)) (
      Step.arrives (lit "10.0.0.1") 5 Select.sent Wait.token true (started one_request) busy
        request_arrives)

one_runs : 0 < count 0 busy.running
unfolding count
one_runs = omega arith

running_bounded_example : (slots_at 0 busy.rc ≡ count 0 busy.running) × (count 0 busy.running ≤ 1)
running_bounded_example = running_bounded one_request busy 0 (omega arith) busy-Steps

finish_returns_example : finish 0 busy ≢ none
finish_returns_example = finish_returns one_request busy 0 busy-Steps one_runs
