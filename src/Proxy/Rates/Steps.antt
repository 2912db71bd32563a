-- ===== src/Proxy/Rates/Steps.antt =====
-- The rate controller among the requests of handleRequest (cmd/mulch-proxy/proxy.go): a step is an
-- arrival, with the end of its wait in `IsAllowed`, the end of a request, or a cleaning.
use mulch.Prelude.{
  ℕ, ◌+◌, ◌<◌, ◌≡◌, Bool, Option, none, some, List, [], ◌∷◌, if◌then◌else◌, eqb, nat_eq,
}
use mulch.Text.{Str, str_eq}
use mulch.GoMap.{get}
use mulch.Proxy.Rates.{
  RateController, Select, Wait, Allowed, get_entry, clean, is_allowed, finish_request,
}

-- The controller, and the address of the entry of each request that has to call `FinishRequest`.
pub record Server : Type 0 where
  pub rc : RateController
  pub running : List ℕ

unfoldable pub arrived : ℕ → Server → Option (RateController × Allowed) → Option (Server × Bool)
arrived a s none = none
arrived a s (some (rc, r)) =
    some
      (record { rc = rc; running = if r.need_finish then a ∷ s.running else s.running }, r.allowed)

-- handleRequest as far as the limits: `GetEntry`, `IsAllowed`, and the deferred `FinishRequest`.
unfoldable pub arrive : Str → ℕ → Select → Wait → Server → Option (Server × Bool)
arrive ip now sel w s = let (rc, a) = get_entry ip now s.rc in arrived a s (is_allowed sel w a rc)

unfoldable pub remove_one : ℕ → List ℕ → List ℕ
remove_one a [] = []
remove_one a (b ∷ bs) = if eqb b a then bs else b ∷ remove_one a bs

unfoldable pub count : ℕ → List ℕ → ℕ
count a [] = 0
count a (b ∷ bs) = (if eqb b a then 1 else 0) + count a bs

unfoldable pub finished : ℕ → Server → Option RateController → Option Server
finished a s none = none
finished a s (some rc) = some (record { rc = rc; running = remove_one a s.running })

unfoldable pub finish : ℕ → Server → Option Server
finish a s = finished a s (finish_request a s.rc)

unfoldable pub sweep : ℕ → ℕ → Server → Server
sweep unused_time now s = record s { rc = clean unused_time now s.rc }

unfoldable pub slots_at : ℕ → RateController → ℕ
slots_at a rc = elim (get a rc.heap) [ none ↦ 0 | some e ↦ e.slots ]

-- The steps of the server; a request finishes once.
pub data Step : Server → Server → Type 0 where
  arrives :
      (ip : Str) (now : ℕ) (sel : Select) (w : Wait) (ok : Bool) (s t : Server)
      → arrive ip now sel w s ≡ some (t, ok)
      → Step s t
  finishes : (a : ℕ) (s t : Server) → 0 < count a s.running → finish a s ≡ some t → Step s t
  sweeps : (unused_time now : ℕ) (s : Server) → Step s (sweep unused_time now s)

pub data Steps : Server → Server → Type 0 where
  here : (s : Server) → Steps s s
  then : (s t u : Server) → Steps s t → Step t u → Steps s u
