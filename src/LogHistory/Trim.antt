-- ===== src/LogHistory/Trim.antt =====
-- The removal of the oldest slot of a chain.
use mulch.Prelude.{
  ◌-◌, ap, ℕ, ◌≤◌, ◌<◌, ◌≡◌, refl, ◌∙◌, Option, none, some, [], ◌∷◌, arith, nat_eq, length, take,
}
use mulch.GoMap.{Map, get, put}
use mulch.Message.{Message}
use mulch.LogHistory.{Slot, LogHistory, clear_older, advance_oldest, drop_slot, remove_oldest}
use mulch.LogHistory.Chain.{Cells, IsChain, IsBelow, get-put_slot}

abbrev pub drop_last : Cells → Cells
drop_last [] = []
drop_last (x ∷ []) = []
drop_last (x ∷ y ∷ cs) = x ∷ drop_last (y ∷ cs)

-- The addresses of the last slot, and of the one before it.
abbrev pub last_addr : ℕ → Cells → ℕ
last_addr a [] = a
last_addr a ((b, m) ∷ cs) = last_addr b cs

abbrev pub before_last : ℕ → ℕ → Cells → ℕ
before_last a b [] = a
before_last a b ((c, m) ∷ cs) = before_last b c cs

before_last-le : (a b : ℕ) (cs : Cells) → b < a → IsBelow b cs → before_last a b cs ≤ a
before_last-le a b [] lt h = omega arith
before_last-le a b ((c, m) ∷ cs) lt h = omega (arith, before_last-le b c cs h.0 h.1)

-- The slot before the last one, with no older one.
abbrev pub ending : ℕ → Message → Option ℕ → ℕ → Message → Cells → Slot
ending a m up b m' [] = record { payload = m; older = none; newer = up }
ending a m up b m' ((c, m'') ∷ cs) = ending b m' (some a) c m'' cs

abbrev old_slot : ℕ → Message → Option ℕ → ℕ → Message → Cells → Slot
old_slot a m up b m' [] = record { payload = m; older = some b; newer = up }
old_slot a m up b m' ((c, m'') ∷ cs) = old_slot b m' (some a) c m'' cs

abbrev last_message : Message → Cells → Message
last_message m [] = m
last_message m ((b, m') ∷ cs) = last_message m' cs

get-last_addr :
    (h : Map ℕ Slot) (up : Option ℕ) (a b : ℕ) (m m' : Message) (cs : Cells)
    → IsChain h up ((a, m) ∷ (b, m') ∷ cs)
    → get (last_addr b cs) h
      ≡ some
          (record { payload = last_message m' cs; older = none; newer = some (before_last a b cs) })
get-last_addr h up a b m m' [] c = c.1.0
get-last_addr h up a b m m' ((d, m'') ∷ cs) c = get-last_addr h (some a) b d m' m'' cs c.1

get-before_last :
    (h : Map ℕ Slot) (up : Option ℕ) (a b : ℕ) (m m' : Message) (cs : Cells)
    → IsChain h up ((a, m) ∷ (b, m') ∷ cs)
    → get (before_last a b cs) h ≡ some (old_slot a m up b m' cs)
get-before_last h up a b m m' [] c = c.0
get-before_last h up a b m m' ((d, m'') ∷ cs) c = get-before_last h (some a) b d m' m'' cs c.1

ending-old_slot :
    (up : Option ℕ) (a b : ℕ) (m m' : Message) (cs : Cells)
    → record (old_slot a m up b m' cs) { older = none } ≡ ending a m up b m' cs
ending-old_slot up a b m m' [] = refl
ending-old_slot up a b m m' ((d, m'') ∷ cs) = ending-old_slot (some a) b d m' m'' cs

get-put_above : (q a : ℕ) (s : Slot) (h : Map ℕ Slot) → q < a → get a (put q s h) ≡ get a h
get-put_above q a s h lt = ground (arith, get-put_slot q a s h)

pub drop_last-IsChain :
    (h : Map ℕ Slot) (up : Option ℕ) (a b : ℕ) (m m' : Message) (cs : Cells)
    → IsBelow a ((b, m') ∷ cs)
    → IsChain h up ((a, m) ∷ (b, m') ∷ cs)
    → IsChain
        (put (before_last a b cs) (ending a m up b m' cs) h)
        up
        (drop_last ((a, m) ∷ (b, m') ∷ cs))
drop_last-IsChain h up a b m m' [] le c =
    (ground (arith, get-put_slot a a (record { payload = m; older = none; newer = up }) h), tt)
drop_last-IsChain h up a b m m' ((d, m'') ∷ cs) le c =
    let q = before_last b d cs in
    (
      get-put_above q a (ending b m' (some a) d m'' cs) h
            (omega (arith, le.0, before_last-le b d cs le.1.0 le.1.1))
          ∙ c.0,
      drop_last-IsChain h (some a) b d m' m'' cs le.1 c.1,
    )

-- The code that removes the oldest slot, on a chain of at least two.
pub remove_oldest_lem :
    (lh : LogHistory) (up : Option ℕ) (a b : ℕ) (m m' : Message) (cs : Cells)
    → IsChain lh.heap up ((a, m) ∷ (b, m') ∷ cs)
    → remove_oldest (some (last_addr b cs)) lh
      ≡ some (record lh {
        heap = put (before_last a b cs) (ending a m up b m' cs) lh.heap;
        oldest = some (before_last a b cs);
        current_size = lh.current_size - 1;
      })
unfolding remove_oldest drop_slot advance_oldest clear_older
remove_oldest_lem lh up a b m m' cs c = rw (
  get-last_addr lh.heap up a b m m' cs c,
  get-before_last lh.heap up a b m m' cs c,
  ending-old_slot up a b m m' cs,
)

pub drop_last-IsBelow : (n : ℕ) (cs : Cells) → IsBelow n cs → IsBelow n (drop_last cs)
drop_last-IsBelow n [] b = tt
drop_last-IsBelow n (x ∷ []) b = tt
drop_last-IsBelow n (x ∷ y ∷ cs) b = (b.0, drop_last-IsBelow x.0 (y ∷ cs) b.1)

pub length-drop_last : (x : ℕ × Message) (cs : Cells) → length (drop_last (x ∷ cs)) ≡ length cs
length-drop_last x [] = refl
length-drop_last x (y ∷ cs) = omega (arith, length-drop_last y cs)

pub drop_last-take : (x : ℕ × Message) (cs : Cells) → drop_last (x ∷ cs) ≡ take (length cs) (x ∷ cs)
drop_last-take x [] = refl
drop_last-take x (y ∷ cs) = ap (λ r. x ∷ r) (drop_last-take y cs)
