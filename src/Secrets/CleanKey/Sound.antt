-- ===== src/Secrets/CleanKey/Sound.antt =====
-- The keys that `CleanKey` of cmd/mulchd/server/secret_database.go gives, whatever was typed.
use mathlib.Core.List.{reverse, reverse-cons}
use mulch.Prelude.{
  ℕ, ◌≡◌, ◌≢◌, refl, sym, ◌∙◌, ap, subst, ◌⊎◌, inl, inr, Bool, true, false, List, [], ◌∷◌, arith,
  all, All, All-append, Bool-cases, ok, if◌then◌else◌, eqb, ◌==◌,
}
use mulch.Text.{Str, lit, str_eq, str_beq_iff}
use mulch.Text.Words.{
  is_nil, is_valid_name, to_upper, trim_space, split, join, push_head, up, clean_part, clean_parts,
  path_clean, starts_with,
}
use mulch.Text.Split.{Lacks, split-join}
use mulch.Secrets.CleanKey.{clean_key, check_path, drop_slash, last_part}
use mulch.Secrets.CleanKey.Accepts.{IsPart, IsKey}
use mulch.Secrets.CleanKey.Slashes.{split-slash}

-- An element of a path: not empty, and without a slash.
abbrev IsElement : Str → Type 0
IsElement w = (is_nil w ≡ false) × Lacks b'/' w

push_head-Lacks :
    (c : ℕ) (ws : List Str) → c ≢ b'/' → All (Lacks b'/') ws → All (Lacks b'/') (push_head c ws)
push_head-Lacks c [] n h = ((n, tt), tt)
push_head-Lacks c (w ∷ ws) n h = ((n, h.0), h.1)

split-Lacks : (s : Str) → All (Lacks b'/') (split b'/' s)
unfolding split
split-Lacks [] = (tt, tt)
split-Lacks (c ∷ s) = elim (Bool-cases (eqb c b'/')) [
  | inl e ↦ rw e (tt, split-Lacks s)
  | inr e ↦ rw e (push_head-Lacks c (split b'/' s) (ground (arith, e)) (split-Lacks s))
]

parent : IsElement (lit "..")
parent = (refl, (ground arith, (ground arith, tt)))

up-IsElement : (r : Bool) (out : List Str) → All IsElement out → All IsElement (up r out)
up-IsElement true [] h = tt
up-IsElement false [] h = (parent, tt)
up-IsElement r (q ∷ out) h = elim (Bool-cases (q == lit "..")) [
  | inl e ↦ rw e (parent, h)
  | inr e ↦ rw e h.1
]

clean_part-IsElement :
    (r : Bool) (p : Str) (out : List Str)
    → Lacks b'/' p
    → All IsElement out
    → All IsElement (clean_part r p out)
unfolding clean_part
clean_part-IsElement r [] out l h = h
clean_part-IsElement r (c ∷ p) out l h = elim (Bool-cases (c ∷ p == lit ".")) [
  | inl e ↦ rw e h
  | inr e ↦ rw e (elim (Bool-cases (c ∷ p == lit "..")) [
    | inl f ↦ rw f (up-IsElement r out h)
    | inr f ↦ rw f ((refl, l), h)
  ])
]

clean_parts-IsElement :
    (r : Bool) (ps out : List Str)
    → All (Lacks b'/') ps
    → All IsElement out
    → All IsElement (clean_parts r out ps)
unfolding clean_parts
clean_parts-IsElement r [] out l h = h
clean_parts-IsElement r (p ∷ ps) out l h =
    clean_parts-IsElement r ps (clean_part r p out) l.1 (clean_part-IsElement r p out l.0 h)

reverse-IsElement : (ws : List Str) → All IsElement ws → All IsElement (reverse ws)
reverse-IsElement [] h = tt
reverse-IsElement (w ∷ ws) h =
    subst (All IsElement) (sym (reverse-cons w ws))
      (All-append IsElement (reverse ws) (w ∷ []) (reverse-IsElement ws h.1) (h.0, tt))

-- The elements of a cleaned path
elements : Bool → Str → List Str
elements r s = reverse (clean_parts r [] (split b'/' s))

elements-IsElement : (r : Bool) (s : Str) → All IsElement (elements r s)
unfolding elements
elements-IsElement r s =
    reverse-IsElement (clean_parts r [] (split b'/' s))
      (clean_parts-IsElement r (split b'/' s) [] (split-Lacks s) tt)

-- A text made of parts, with or without a slash before it
abbrev pub IsKeyText : Str → Type 0
IsKeyText k =
    (w : Str) × (ws : List Str) × IsKey w ws
    × ((k ≡ join b'/' (w ∷ ws)) ⊎ (k ≡ b'/' ∷ join b'/' (w ∷ ws)))

-- What `check_path` tests
abbrev IsChecked : List Str → Type 0
IsChecked parts =
    (all is_valid_name parts ≡ true)
    × (is_nil (last_part parts) ≡ false)
    × (to_upper (last_part parts) ≡ last_part parts)

elements-Lacks : (ws : List Str) → All IsElement ws → All (Lacks b'/') ws
elements-Lacks [] h = tt
elements-Lacks (w ∷ ws) h = (h.0.1, elements-Lacks ws h.1)

elements-IsPart : (ws : List Str) → All IsElement ws → all is_valid_name ws ≡ true → All IsPart ws
elements-IsPart [] h v = tt
elements-IsPart (w ∷ ws) h v =
    ((ground (arith, v), h.0.0), elements-IsPart ws h.1 (ground (arith, v)))

elements-IsKey :
    (w : Str) (ws : List Str) → All IsElement (w ∷ ws) → IsChecked (w ∷ ws) → IsKey w ws
elements-IsKey w ws h c = (elements-IsPart (w ∷ ws) h c.0, c.2)

-- A cleaned path, by its elements
unfoldable cleaned : Bool → List Str → Str
cleaned true ws = b'/' ∷ join b'/' ws
cleaned false ws = if is_nil (join b'/' ws) then lit "." else join b'/' ws

join-not_nil : (w : Str) (ws : List Str) → is_nil w ≡ false → is_nil (join b'/' (w ∷ ws)) ≡ false
unfolding join
join-not_nil [] ws h = absurd (ground (arith, h))
join-not_nil (c ∷ w) [] h = refl
join-not_nil (c ∷ w) (v ∷ ws) h = refl

cleaned-IsKeyText :
    (r : Bool) (ws : List Str)
    → All IsElement ws
    → IsChecked (split b'/' (cleaned r ws))
    → IsKeyText (cleaned r ws)
unfolding cleaned split join is_valid_name
cleaned-IsKeyText true [] h c = absurd (ground (arith, c.1))
cleaned-IsKeyText false [] h c = absurd (ground (arith, c.0))
cleaned-IsKeyText true (w ∷ ws) h c =
    let parts : split b'/' (b'/' ∷ join b'/' (w ∷ ws)) ≡ [] ∷ w ∷ ws =
      split-slash (join b'/' (w ∷ ws))
      ∙ ap (λ p. [] ∷ p) (split-join b'/' w ws (elements-Lacks (w ∷ ws) h)) in
    let d : IsChecked ([] ∷ w ∷ ws) = subst IsChecked parts c in
    (w, ws, elements-IsKey w ws h (ground (arith, d.0), d.1, d.2), inr refl)
cleaned-IsKeyText false (w ∷ ws) h c =
    let same : cleaned false (w ∷ ws) ≡ join b'/' (w ∷ ws) =
      ap (λ b. if b then lit "." else join b'/' (w ∷ ws)) (join-not_nil w ws h.0.0) in
    let parts : split b'/' (cleaned false (w ∷ ws)) ≡ w ∷ ws =
      ap (split b'/') same ∙ split-join b'/' w ws (elements-Lacks (w ∷ ws) h) in
    (w, ws, elements-IsKey w ws h (subst IsChecked parts c), inl same)

path_clean-cleaned :
    (s : Str)
    → path_clean s ≡ cleaned (starts_with (lit "/") s) (elements (starts_with (lit "/") s) s)
unfolding path_clean cleaned elements
path_clean-cleaned s = elim (Bool-cases (starts_with (lit "/") s)) [
  | inl e ↦ rw e refl
  | inr e ↦ rw e refl
]

check_path-IsChecked :
    (path k : Str) → check_path path ≡ ok k → (path ≡ k) × IsChecked (split b'/' path)
unfolding check_path
check_path-IsChecked path k h =
    let env = last_part (split b'/' path) in ground (arith, h, str_beq_iff env (to_upper env))

-- Whatever was typed, a key that `CleanKey` gives consists of parts, none of them empty and each a valid name, between single slashes, the last one in upper case; and there is one slash before it, or none.
pub clean_key-IsKeyText : (s k : Str) → clean_key s ≡ ok k → IsKeyText k
unfolding clean_key
clean_key-IsKeyText s k h =
    let typed = drop_slash (trim_space s) in
    let r = starts_with (lit "/") typed in
    let c = check_path-IsChecked (path_clean typed) k (ground (arith, h)) in
    let shape = path_clean-cleaned typed in
    subst IsKeyText (sym shape ∙ c.0) (
      cleaned-IsKeyText r (elements r typed) (elements-IsElement r typed)
        (subst (λ p. IsChecked (split b'/' p)) shape c.1))
