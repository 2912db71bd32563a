-- ===== src/LogHistory/Search.antt =====
-- The loop of `Search` on a chain of slots.
use mulch.Prelude.{
  ap, ℕ, zero, suc, ◌<◌, ◌≡◌, refl, ◌∙◌, true, false, Option, none, some, List, [], ◌∷◌, arith,
  length, take, filter, Bool-cases, inl, inr,
}
use mathlib.Core.List.{reverse}
use mulch.GoMap.{Map}
use mulch.Text.{Str}
use mulch.Message.{Message}
use mulch.LogHistory.{Slot, LogHistory, is_match, visit, search_loop, reversed, search}
use mulch.LogHistory.Chain.{Cells, head_addr, IsChain}
use mulch.LogHistory.Push.{Represents}

abbrev pub messages : Cells → List Message
messages [] = []
messages ((a, m) ∷ cs) = m ∷ messages cs

pub length-messages : (cs : Cells) → length (messages cs) ≡ length cs
length-messages [] = refl
length-messages (x ∷ cs) = ap suc (length-messages cs)

-- With more fuel than slots, the loop follows no nil pointer and finds the first matches.
search_loop_lem :
    (t : Str) (fuel left : ℕ) (h : Map ℕ Slot) (up : Option ℕ) (cs : Cells)
    → IsChain h up cs
    → length cs < fuel
    → search_loop t fuel left (head_addr cs) h
      ≡ some (take left (filter (is_match t) (messages cs)))
unfolding search_loop visit
search_loop_lem t zero left h up cs c lt = ground (arith, lt)
search_loop_lem t (suc fuel) zero h up [] c lt = refl
search_loop_lem t (suc fuel) (suc left) h up [] c lt = refl
search_loop_lem t (suc fuel) zero h up ((a, m) ∷ cs) c lt = refl
search_loop_lem t (suc fuel) (suc left) h up ((a, m) ∷ cs) c lt = elim (Bool-cases (is_match t m)) [
  | inl e ↦
      rw (c.0, e, search_loop)
        (ap (visit true m) (search_loop_lem t fuel left h (some a) cs c.1 (omega (arith, lt))))
  | inr e ↦
      rw (c.0, e, search_loop)
        (ap (visit false m)
          (search_loop_lem t fuel (suc left) h (some a) cs c.1 (omega (arith, lt))))
]

pub search_lem :
    (k : ℕ) (t : Str) (lh : LogHistory) (cs : Cells)
    → Represents lh cs
    → search k t lh ≡ some (reverse (take k (filter (is_match t) (messages cs))))
unfolding search reversed
search_lem k t lh cs r = ap reversed (
    ap (λ o. search_loop t (suc lh.current_size) k o lh.heap) r.newest_first
    ∙ search_loop_lem t (suc lh.current_size) k lh.heap none cs r.chain (omega (arith, r.size)))
