-- ===== src/LogHistory/Chain.antt =====
-- A chain of slots on the heap, from the newest to the oldest.
use mulch.Prelude.{
  ℕ, ◌≤◌, ◌<◌, ◌≡◌, Option, none, some, List, [], ◌∷◌, arith, if◌then◌else◌, eqb, nat_eq,
}
use mulch.GoMap.{Map, get, put}
use mulch.GoMap.Laws.{get-put}
use mulch.Message.{Message}
use mulch.LogHistory.{Slot}

-- Address and message of each slot.
abbrev pub Cells : Type 0
Cells = List (ℕ × Message)

abbrev pub head_addr : Cells → Option ℕ
head_addr [] = none
head_addr ((a, m) ∷ cs) = some a

-- Each slot points to the next older one, and back to the next newer one, which is `up` for the first.
abbrev pub IsChain : Map ℕ Slot → Option ℕ → Cells → Type 0
IsChain h up [] = Unit
IsChain h up ((a, m) ∷ cs) =
    (get a h ≡ some (record { payload = m; older = head_addr cs; newer = up }))
    × IsChain h (some a) cs

-- The addresses fall, from below `n`: a slot is younger than those behind it.
abbrev pub IsBelow : ℕ → Cells → Type 0
IsBelow n [] = Unit
IsBelow n ((a, m) ∷ cs) = (a < n) × IsBelow a cs

pub get-put_slot :
    (a b : ℕ) (s : Slot) (h : Map ℕ Slot)
    → get b (put a s h) ≡ (if eqb a b then some s else get b h)
get-put_slot a b s h = get-put a b s h

-- A write above the chain leaves it.
pub frame :
    (n a : ℕ) (s : Slot) (h : Map ℕ Slot) (up : Option ℕ) (cs : Cells)
    → IsBelow n cs
    → n ≤ a
    → IsChain h up cs
    → IsChain (put a s h) up cs
frame n a s h up [] b le c = tt
frame n a s h up ((x, m) ∷ cs) b le c = (
  ground (arith, b.0, c.0, get-put_slot a x s h),
  frame x a s h (some x) cs b.1 (omega (arith, b.0)) c.1,
)
