-- ===== src/Proxy/Rates/Invariant.antt =====
-- The slots of the entries and the requests that hold them: what every step keeps.
use mulch.Prelude.{
  sym, ap, ◌∙◌, ℕ, suc, ◌-◌, ◌≤◌, ◌<◌, ◌≡◌, refl, Bool, true, false, Option, none, some, List, [],
  ◌∷◌, arith, all, if◌then◌else◌, ltb, eqb, nat_eq, Option-cases, inl, inr,
}
use mulch.Text.{Str, str_eq}
use mulch.GoMap.{Map, get, put}
use mulch.GoMap.Laws.{get-put}
use mulch.Proxy.Rates.{
  RateControllerConfig, RateControllerEntry, RateController, Select, Wait, new_rate_controller,
  used, touch, found_entry, new_entry, get_entry, clean_entries, clean, take_slot, wait_token,
  ask_token, is_allowed, free_slot, finish_request,
}
use mulch.Proxy.Rates.Steps.{
  Server, arrived, arrive, remove_one, count, finished, finish, sweep, slots_at, Step, Steps,
}

unfoldable pub has_entry : ℕ → RateController → Bool
has_entry a rc = elim (get a rc.heap) [ none ↦ false | some e ↦ true ]

-- Addresses below `next` are those of entries, the map and the running requests hold such addresses,
-- and with a limit each entry counts the running requests that hold it, at most as many as allowed.
pub record IsSound (rc : RateController) (running : List ℕ) : Type 0 where
  pub allocated : (a : ℕ) → has_entry a rc ≡ ltb a rc.next
  pub mapped : all (λ e. ltb e.1 rc.next) rc.entries ≡ true
  pub held : (a : ℕ) → 0 < count a running → a < rc.next
  pub counted : (a : ℕ) → 0 < rc.config.concurrent_max_requests → slots_at a rc ≡ count a running
  pub bounded :
      (a : ℕ)
      → 0 < rc.config.concurrent_max_requests
      → slots_at a rc ≤ rc.config.concurrent_max_requests

get-put_entry :
    (a b : ℕ) (e : RateControllerEntry) (h : Map ℕ RateControllerEntry)
    → get b (put a e h) ≡ (if eqb a b then some e else get b h)
get-put_entry a b e h = get-put a b e h

all-get :
    (ip : Str) (n a : ℕ) (m : Map Str ℕ) → all (λ e. ltb e.1 n) m ≡ true → get ip m ≡ some a → a < n
unfolding get
all-get ip n a [] h g = ground arith
all-get ip n a ((j, b) ∷ m) h g = ground (arith, all-get ip n a m)

all-suc :
    (n : ℕ) (m : Map Str ℕ) → all (λ e. ltb e.1 n) m ≡ true → all (λ e. ltb e.1 (suc n)) m ≡ true
all-suc n [] h = refl
all-suc n ((j, b) ∷ m) h = ground (arith, all-suc n m)

all-put :
    (ip : Str) (n a : ℕ) (m : Map Str ℕ)
    → all (λ e. ltb e.1 n) m ≡ true
    → a < n
    → all (λ e. ltb e.1 n) (put ip a m) ≡ true
unfolding put
all-put ip n a [] h g = ground arith
all-put ip n a ((j, b) ∷ m) h g = ground (arith, all-put ip n a m)

all-clean_entries :
    (n u now : ℕ) (h : Map ℕ RateControllerEntry) (m : Map Str ℕ)
    → all (λ e. ltb e.1 n) m ≡ true
    → all (λ e. ltb e.1 n) (clean_entries u now h m) ≡ true
unfolding clean_entries
all-clean_entries n u now h [] p = refl
all-clean_entries n u now h ((j, b) ∷ m) p = ground (arith, all-clean_entries n u now h m)

count-remove_one :
    (a b : ℕ) (bs : List ℕ) → count a (remove_one b bs) ≡ count a bs - (if eqb a b then 1 else 0)
unfolding count remove_one
count-remove_one a b [] = ground arith
count-remove_one a b (x ∷ bs) = ground (arith, count-remove_one a b bs)

pub new-IsSound : (c : RateControllerConfig) → IsSound (new_rate_controller c) []
unfolding new_rate_controller has_entry slots_at count get
new-IsSound c = record {
  allocated = λ a. ground arith;
  mapped = refl;
  held = λ a h. ground arith;
  counted = λ a h. refl;
  bounded = λ a h. ground arith;
}

get-touch :
    (now a b : ℕ) (h : Map ℕ RateControllerEntry)
    → get b (touch now a h)
      ≡ elim (get b h) [ none ↦ none | some e ↦ some (if eqb a b then used now e else e) ]
unfolding touch
get-touch now a b h = elim (Option-cases (get a h)) [
  | inl e ↦ ground arith
  | inr (x, e) ↦ ground (arith, get-put_entry a b (used now x) h)
]

found_entry-IsSound :
    (ip : Str) (now : ℕ) (o : Option ℕ) (rc : RateController) (running : List ℕ)
    → IsSound rc running
    → get ip rc.entries ≡ o
    → IsSound (found_entry ip now rc o).0 running
unfolding found_entry new_entry used has_entry slots_at
found_entry-IsSound ip now (some a) rc running s g = record {
  allocated = λ b. ground (arith, s.allocated b, get-touch now a b rc.heap);
  mapped = s.mapped;
  held = s.held;
  counted = λ b h. ground (arith, s.counted b h, get-touch now a b rc.heap);
  bounded = λ b h. ground (arith, s.bounded b h, get-touch now a b rc.heap);
}
found_entry-IsSound ip now none rc running s g = record {
  allocated =
      λ b. ground (arith, s.allocated b, get-put_entry rc.next b (new_entry now rc) rc.heap);
  mapped =
      all-put ip (suc rc.next) rc.next rc.entries (all-suc rc.next rc.entries s.mapped)
        (omega arith);
  held = λ b h. omega (arith, s.held b h);
  counted = λ b h.
      ground
        (arith, s.counted b h, s.allocated b, get-put_entry rc.next b (new_entry now rc) rc.heap);
  bounded =
      λ b h. ground (arith, s.bounded b h, get-put_entry rc.next b (new_entry now rc) rc.heap);
}

get_entry-IsSound :
    (ip : Str) (now : ℕ) (rc : RateController) (running : List ℕ)
    → IsSound rc running
    → IsSound (get_entry ip now rc).0 running
unfolding get_entry
get_entry-IsSound ip now rc running s =
    found_entry-IsSound ip now (get ip rc.entries) rc running s refl

get_entry-held :
    (ip : Str) (now : ℕ) (rc : RateController) (running : List ℕ)
    → IsSound rc running
    → (get_entry ip now rc).1 < (get_entry ip now rc).0.next
unfolding get_entry found_entry
get_entry-held ip now rc running s = elim (Option-cases (get ip rc.entries)) [
  | inl e ↦ rw e (omega arith)
  | inr (a, e) ↦ rw e (all-get ip rc.next a rc.entries s.mapped e)
]

take_slot-IsSound :
    (sel : Select) (w : Wait) (a : ℕ) (e : RateControllerEntry) (s t : Server) (ok : Bool)
    (rc : RateController)
    → IsSound rc s.running
    → get a rc.heap ≡ some e
    → a < rc.next
    → arrived a s (ask_token w e (take_slot sel a e rc)) ≡ some (t, ok)
    → IsSound t.rc t.running
unfolding arrived take_slot ask_token wait_token has_entry slots_at count
take_slot-IsSound sel w a e s t ok rc i g k h = record {
  allocated = λ b. ground (
    arith,
    i.allocated b,
    i.allocated a,
    get-put_entry a b (record e { slots = suc e.slots }) rc.heap,
  );
  mapped = ground (arith, i.mapped);
  held = λ b p. ground (arith, i.held b);
  counted = λ b p.
      ground (
        arith,
        i.counted b,
        i.held b,
        get-put_entry a b (record e { slots = suc e.slots }) rc.heap,
      );
  bounded = λ b p. ground (
    arith,
    i.bounded b,
    i.bounded a,
    get-put_entry a b (record e { slots = suc e.slots }) rc.heap,
  );
}

arrived-none : (a : ℕ) (s : Server) → arrived a s none ≡ none
unfolding arrived
arrived-none a s = refl

arrive-IsSound :
    (ip : Str) (now : ℕ) (sel : Select) (w : Wait) (s t : Server) (ok : Bool)
    → IsSound s.rc s.running
    → arrive ip now sel w s ≡ some (t, ok)
    → IsSound t.rc t.running
unfolding arrive is_allowed
arrive-IsSound ip now sel w s t ok i h =
    let (rc, a) = get_entry ip now s.rc in
    elim (Option-cases (get a rc.heap)) [
      | inl e ↦ ground (arith, arrived-none a s)
      | inr (x, e) ↦
          take_slot-IsSound sel w a x s t ok rc (get_entry-IsSound ip now s.rc s.running i) e
            (get_entry-held ip now s.rc s.running i)
            (ap
                (λ o.
                  arrived a s
                    (elim o [ none ↦ none | some y ↦ ask_token w y (take_slot sel a y rc) ]))
                (sym e)
              ∙ h)
    ]

finish-IsSound :
    (a : ℕ) (s t : Server) → IsSound s.rc s.running → finish a s ≡ some t → IsSound t.rc t.running
unfolding finish finished finish_request free_slot has_entry slots_at
finish-IsSound a s t i h = elim (Option-cases (get a s.rc.heap)) [
  | inl e ↦ ground arith
  | inr (x, e) ↦ record {
    allocated = λ b. ground (
      arith,
      i.allocated b,
      i.allocated a,
      get-put_entry a b (record x { slots = x.slots - 1 }) s.rc.heap,
    );
    mapped = ground (arith, i.mapped);
    held = λ b p. ground (arith, i.held b, count-remove_one b a s.running);
    counted = λ b p. ground (
      arith,
      i.counted b,
      i.held b,
      count-remove_one b a s.running,
      get-put_entry a b (record x { slots = x.slots - 1 }) s.rc.heap,
    );
    bounded = λ b p. ground (
      arith,
      i.bounded b,
      i.bounded a,
      get-put_entry a b (record x { slots = x.slots - 1 }) s.rc.heap,
    );
  }
]

sweep-IsSound :
    (u now : ℕ) (s : Server)
    → IsSound s.rc s.running
    → IsSound (sweep u now s).rc (sweep u now s).running
unfolding sweep clean has_entry slots_at
sweep-IsSound u now s i = record {
  allocated = i.allocated;
  mapped = all-clean_entries s.rc.next u now s.rc.heap s.rc.entries i.mapped;
  held = i.held;
  counted = i.counted;
  bounded = i.bounded;
}

Step-IsSound : (s t : Server) → Step s t → IsSound s.rc s.running → IsSound t.rc t.running
Step-IsSound s t (Step.arrives ip now sel w ok _ _ e) i = arrive-IsSound ip now sel w s t ok i e
Step-IsSound s t (Step.finishes a _ _ p e) i = finish-IsSound a s t i e
Step-IsSound s t (Step.sweeps u now _) i = sweep-IsSound u now s i

pub Steps-IsSound : (s t : Server) → Steps s t → IsSound s.rc s.running → IsSound t.rc t.running
Steps-IsSound s t (Steps.here _) i = i
Steps-IsSound s t (Steps.then _ u _ r e) i = Step-IsSound u t e (Steps-IsSound s u r i)
