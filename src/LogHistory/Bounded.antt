-- ===== src/LogHistory/Bounded.antt =====
-- What a history keeps, and what a search in it finds.
use mulch.Prelude.{
  ap, ℕ, zero, suc, ◌≤◌, ◌<◌, ◌≡◌, refl, sym, ◌∙◌, Option, none, some, List, [], ◌∷◌, arith, ltb,
  nat_eq, length, length-take, take, filter, map, max, Bool-cases, inl, inr,
}
use mathlib.Core.List.{reverse, reverse_aux}
use mulch.Text.{Str}
use mulch.Message.{Message}
use mulch.LogHistory.{LogHistory, new_log_history, truncate, push, is_match, search}
use mulch.LogHistory.Chain.{Cells}
use mulch.LogHistory.Trim.{drop_last, drop_last-take}
use mulch.LogHistory.Push.{Represents, pushed, push-Represents}
use mulch.LogHistory.Search.{messages, length-messages, search_lem}

take_all {ℓ} : {A : Type ℓ} (n : ℕ) (xs : List A) → length xs ≤ n → take n xs ≡ xs
take_all zero [] le = refl
take_all (suc n) [] le = refl
take_all zero (x ∷ xs) le = ground (arith, le)
take_all (suc n) (x ∷ xs) le = ap (λ r. x ∷ r) (take_all n xs (omega (arith, le)))

-- An element in front of the first `n`, cut again, is the first `n` with it.
take_cons_take {ℓ} :
    {A : Type ℓ} (n : ℕ) (x : A) (xs : List A) → take n (x ∷ take n xs) ≡ take n (x ∷ xs)
take_cons_take zero x xs = refl
take_cons_take (suc n) x [] = refl
take_cons_take (suc zero) x (y ∷ ys) = refl
take_cons_take (suc (suc n)) x (y ∷ ys) = ap (λ r. x ∷ r) (take_cons_take (suc n) y ys)

take_nil : (n : ℕ) → ◌≡◌ {A = List Message} [] (take n [])
take_nil zero = refl
take_nil (suc n) = refl

-- The bound that the code keeps: a history of size 0 holds one message.
abbrev pub bound : ℕ → ℕ
bound n = max 1 n

drop_last-bound :
    (n : ℕ) (x y : ℕ × Message) (cs : Cells)
    → length (y ∷ cs) ≤ bound n
    → n < suc (length (y ∷ cs))
    → drop_last (x ∷ y ∷ cs) ≡ take (bound n) (x ∷ y ∷ cs)
drop_last-bound n x y cs le lt =
    let e : length (y ∷ cs) ≡ bound n = omega (arith, le, lt) in
    drop_last-take x (y ∷ cs) ∙ ap (λ k. take k (x ∷ y ∷ cs)) e

-- The slots that a push leaves are the newest ones up to the bound.
pushed-take :
    (n : ℕ) (x : ℕ × Message) (cs : Cells)
    → length cs ≤ bound n
    → pushed n x cs ≡ take (bound n) (x ∷ cs)
pushed-take n x [] le = sym (take_all (bound n) (x ∷ []) (omega arith))
pushed-take n x (y ∷ cs) le = elim (Bool-cases (ltb n (suc (length (y ∷ cs))))) [
  | inl e ↦ rw e (drop_last-bound n x y cs le (ground (arith, e)))
  | inr e ↦ rw e (sym (take_all (bound n) (x ∷ y ∷ cs) (ground (arith, e))))
]

messages-take : (n : ℕ) (cs : Cells) → messages (take n cs) ≡ take n (messages cs)
messages-take zero cs = refl
messages-take (suc n) [] = refl
messages-take (suc n) (x ∷ cs) = ap (λ r. x.1 ∷ r) (messages-take n cs)

-- A run of the code: every message is pushed, the first one first.
abbrev pub push_all : List Message → LogHistory → Option LogHistory
push_all [] lh = some lh
push_all (m ∷ ms) lh = elim (push m lh) [ none ↦ none | some lh' ↦ push_all ms lh' ]

-- The abstract view: the messages to keep, the newest first.
abbrev pub kept : ℕ → List Message → List Message
kept n ms = take (bound n) (reverse (map truncate ms))

-- Pushes on a history that holds the newest messages of `past`.
push_all_lem :
    (n : ℕ) (ms past : List Message) (lh : LogHistory) (cs : Cells)
    → Represents lh cs
    → lh.max_size ≡ n
    → messages cs ≡ take (bound n) past
    → (lh' : LogHistory) × (cs' : Cells) × (push_all ms lh ≡ some lh')
      × Represents lh' cs'
      × (messages cs' ≡ take (bound n) (reverse_aux (map truncate ms) past))
push_all_lem n [] past lh cs r s e = (lh, cs, refl, r, e)
push_all_lem n (m ∷ ms) past lh cs r s e =
    let p = push-Represents m lh cs r in
    let small : length cs ≤ bound n =
      omega (arith, length-messages cs, ap length e, length-take (bound n) past) in
    let kept' : pushed lh.max_size (lh.next, truncate m) cs
        ≡ take (bound n) ((lh.next, truncate m) ∷ cs) =
      ap (λ k. pushed k (lh.next, truncate m) cs) s
      ∙ pushed-take n (lh.next, truncate m) cs small in
    let q =
      push_all_lem n ms (truncate m ∷ past) p.0 (pushed lh.max_size (lh.next, truncate m) cs) p.2
        (p.3 ∙ s)
        (ap messages kept'
          ∙ messages-take (bound n) ((lh.next, truncate m) ∷ cs)
          ∙ ap (λ r. take (bound n) (truncate m ∷ r)) e
          ∙ take_cons_take (bound n) (truncate m) past) in
    (q.0, q.1, ap (λ o. elim o [ none ↦ none | some lh' ↦ push_all ms lh' ]) p.1 ∙ q.2, q.3, q.4)

-- For every list of messages pushed on a new history of size `n`, one after the other, no push and no search follows a nil pointer, and a search for a target finds, among the last messages (at most `n` of them, or one if `n` is 0; each truncated), the last `k` that match it, from the oldest to the newest.
pub push_all-search :
    (ms : List Message) (n k : ℕ) (t : Str)
    → (lh : LogHistory) × (push_all ms (new_log_history n) ≡ some lh)
      × (search k t lh ≡ some (reverse (take k (filter (is_match t) (kept n ms)))))
unfolding new_log_history
push_all-search ms n k t =
    let start : Represents (new_log_history n) [] = record {
      newest_first = refl;
      oldest_last = refl;
      size = refl;
      chain = tt;
      below = tt;
    } in
    let q = push_all_lem n ms [] (new_log_history n) [] start refl (take_nil (bound n)) in
    (
      q.0,
      q.2,
      search_lem k t q.0 q.1 q.3 ∙ ap (λ r. some (reverse (take k (filter (is_match t) r)))) q.4,
    )
