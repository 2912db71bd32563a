-- ===== src/LogHistory/Push.antt =====
-- `Push` on a list that stands for a chain of slots.
use mulch.Prelude.{
  ◌-◌, ap, ℕ, suc, ◌≡◌, refl, sym, ◌∙◌, subst, false, Option, none, some, [], ◌∷◌, arith,
  if◌then◌else◌, ltb, eqb, nat_eq, length, Bool-cases, inl, inr,
}
use mulch.GoMap.{Map, get, put}
use mulch.Message.{Message}
use mulch.LogHistory.{
  Slot, LogHistory, truncate, trim, in_front, push_front, push_first, push, remove_oldest,
}
use mulch.LogHistory.Chain.{Cells, head_addr, IsChain, IsBelow, get-put_slot, frame}
use mulch.LogHistory.Trim.{
  drop_last, last_addr, before_last, ending, drop_last-IsChain, remove_oldest_lem,
  drop_last-IsBelow, length-drop_last,
}

abbrev pub last_of : Cells → Option ℕ
last_of [] = none
last_of ((a, m) ∷ cs) = some (last_addr a cs)

-- What a list stands for: its slots, the newest first.
pub record Represents (lh : LogHistory) (cs : Cells) : Type 0 where
  pub newest_first : lh.newest ≡ head_addr cs
  pub oldest_last : lh.oldest ≡ last_of cs
  pub size : lh.current_size ≡ length cs
  pub chain : IsChain lh.heap none cs
  pub below : IsBelow lh.next cs

-- The slots after a push: the new one in front, the oldest one dropped if there are too many.
abbrev pub pushed : ℕ → (ℕ × Message) → Cells → Cells
pushed limit x [] = x ∷ []
pushed limit x (y ∷ cs) =
    if ltb limit (suc (length (y ∷ cs))) then drop_last (x ∷ y ∷ cs) else x ∷ y ∷ cs

last_of-drop_last :
    (a b : ℕ) (m m' : Message) (cs : Cells)
    → last_of (drop_last ((a, m) ∷ (b, m') ∷ cs)) ≡ some (before_last a b cs)
last_of-drop_last a b m m' [] = refl
last_of-drop_last a b m m' ((d, m'') ∷ cs) = last_of-drop_last b d m' m'' cs

-- The new slot before a chain whose first slot points back to it.
in_front-IsChain :
    (h : Map ℕ Slot) (n a : ℕ) (m m' : Message) (cs : Cells) (s : Slot)
    → IsBelow n ((a, m') ∷ cs)
    → IsChain h none ((a, m') ∷ cs)
    → s ≡ record { payload = m'; older = head_addr cs; newer = some n }
    → IsChain
        (put n (record { payload = m; older = some a; newer = none }) (put a s h))
        none
        ((n, m) ∷ (a, m') ∷ cs)
in_front-IsChain h n a m m' cs s b c e =
    let x : Slot = record { payload = m; older = some a; newer = none } in
    (
      ground (arith, get-put_slot n n x (put a s h)),
      (
        ground (arith, b.0, e, get-put_slot n a x (put a s h), get-put_slot a a s h),
        frame a n x (put a s h) (some a) cs b.1 (omega (arith, b.0))
            (frame a a s h (some a) cs b.1 (omega arith) c.1),
      ),
    )

-- What `trim` does to the state, on a chain that starts with a new slot.
trim-Represents :
    (lh : LogHistory) (n a : ℕ) (m m' : Message) (cs : Cells)
    → lh.newest ≡ some n
    → lh.oldest ≡ some (last_addr a cs)
    → lh.current_size ≡ suc (suc (length cs))
    → IsChain lh.heap none ((n, m) ∷ (a, m') ∷ cs)
    → IsBelow lh.next ((n, m) ∷ (a, m') ∷ cs)
    → (lh' : LogHistory) × (trim lh ≡ some lh')
      × Represents lh' (pushed lh.max_size (n, m) ((a, m') ∷ cs))
      × (lh'.max_size ≡ lh.max_size)
      × (lh'.next ≡ lh.next)
unfolding trim
trim-Represents lh n a m m' cs new old size c b =
    elim (Bool-cases (ltb lh.max_size (suc (suc (length cs))))) [
      | inl e ↦ (
        record lh {
          heap = put (before_last n a cs) (ending n m none a m' cs) lh.heap;
          oldest = some (before_last n a cs);
          current_size = lh.current_size - 1;
        },
        rw (ap (ltb lh.max_size) size ∙ e)
            (ap (λ o. remove_oldest o lh) old ∙ remove_oldest_lem lh none n a m m' cs c),
        subst
            (λ r.
              Represents
                (record lh {
                  heap = put (before_last n a cs) (ending n m none a m' cs) lh.heap;
                  oldest = some (before_last n a cs);
                  current_size = lh.current_size - 1;
                })
                (if r then drop_last ((n, m) ∷ (a, m') ∷ cs) else (n, m) ∷ (a, m') ∷ cs))
            (sym e)
            (record {
              newest_first = new;
              oldest_last = sym (last_of-drop_last n a m m' cs);
              size = omega (arith, size, length-drop_last (n, m) ((a, m') ∷ cs));
              chain = drop_last-IsChain lh.heap none n a m m' cs b.1 c;
              below = drop_last-IsBelow lh.next ((n, m) ∷ (a, m') ∷ cs) b;
            }),
        refl,
        refl,
      )
      | inr e ↦ (
        lh,
        rw (ap (ltb lh.max_size) size ∙ e),
        subst
            (λ r.
              Represents lh
                (if r then drop_last ((n, m) ∷ (a, m') ∷ cs) else (n, m) ∷ (a, m') ∷ cs))
            (sym e)
            (record { newest_first = new; oldest_last = old; size = size; chain = c; below = b }),
        refl,
        refl,
      )
    ]

eqb-suc : (n : ℕ) → eqb (suc n) 0 ≡ false
eqb-suc n = ground arith

-- `push_front` on a newest slot that is there.
push_front_lem :
    (lh : LogHistory) (a : ℕ) (m : Message) (s : Slot)
    → get a lh.heap ≡ some s
    → push_front m (some a) lh
      ≡ trim (record lh {
        heap =
            put lh.next
              (record { payload = m; older = some a; newer = none })
              (put a (record s { newer = some lh.next }) lh.heap);
        newest = some lh.next;
        current_size = suc lh.current_size;
        next = suc lh.next;
      })
unfolding push_front in_front
push_front_lem lh a m s e = rw e refl

-- On a list that stands for some slots, a push finds every pointer it follows.
pub push-Represents :
    (m : Message) (lh : LogHistory) (cs : Cells)
    → Represents lh cs
    → (lh' : LogHistory) × (push m lh ≡ some lh')
      × Represents lh' (pushed lh.max_size (lh.next, truncate m) cs)
      × (lh'.max_size ≡ lh.max_size)
      × (lh'.next ≡ suc lh.next)
unfolding push push_first
push-Represents m lh [] r = (
  push_first (truncate m) lh,
  rw (ap (λ k. eqb k 0) r.size) refl,
  record {
    newest_first = refl;
    oldest_last = refl;
    size = ap suc r.size;
    chain = (
      ground (
        arith,
        get-put_slot lh.next lh.next (record { payload = truncate m; older = none; newer = none })
            lh.heap,
      ),
      tt,
    );
    below = (omega arith, tt);
  },
  refl,
  refl,
)
push-Represents m lh ((a, m') ∷ cs) r =
    let x : Slot = record { payload = truncate m; older = some a; newer = none } in
    let old : Slot = record { payload = m'; older = head_addr cs; newer = none } in
    let s : Slot = record old { newer = some lh.next } in
    let next : LogHistory = record lh {
      heap = put lh.next x (put a s lh.heap);
      newest = some lh.next;
      current_size = suc lh.current_size;
      next = suc lh.next;
    } in
    let t =
      trim-Represents next lh.next a (truncate m) m' cs refl r.oldest_last (ap suc r.size)
        (in_front-IsChain lh.heap lh.next a (truncate m) m' cs s r.below r.chain refl)
        (omega arith, r.below) in
    (
      t.0,
      rw (ap (λ k. eqb k 0) r.size, eqb-suc (length cs))
          (ap (λ o. push_front (truncate m) o lh) r.newest_first
            ∙ push_front_lem lh a (truncate m) old r.chain.0
            ∙ t.1),
      t.2,
      t.3,
      t.4,
    )
