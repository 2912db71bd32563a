-- ===== src/Text/Split.antt =====
-- Splitting, joining and trimming strings of word characters.
use mulch.Prelude.{ℕ, ◌≡◌, ◌≢◌, refl, ap, ◌∙◌, false, List, [], ◌∷◌, ◌++◌, arith, All}
use mulch.Text.{Str}
use mulch.Text.Words.{is_space, trim_right, trim_space, split, join}

-- No byte of the string is `sep`.
abbrev pub Lacks : ℕ → Str → Type 0
Lacks sep = All (λ c. c ≢ sep)

pub split-word : (sep : ℕ) (w : Str) → Lacks sep w → split sep w ≡ w ∷ []
unfolding split
split-word sep [] h = refl
split-word sep (c ∷ w) h = ground (arith, split-word sep w)

pub split-append :
    (sep : ℕ) (w s : Str) → Lacks sep w → split sep (w ++ (sep ∷ s)) ≡ w ∷ split sep s
unfolding split
split-append sep [] s h = ground arith
split-append sep (c ∷ w) s h = ground (arith, split-append sep w s)

pub split-join :
    (sep : ℕ) (w : Str) (ws : List Str)
    → All (Lacks sep) (w ∷ ws)
    → split sep (join sep (w ∷ ws)) ≡ w ∷ ws
unfolding join
split-join sep w [] h = split-word sep w h.0
split-join sep w (v ∷ ws) h =
    split-append sep w (join sep (v ∷ ws)) h.0 ∙ ap (λ r. w ∷ r) (split-join sep v ws h.1)

abbrev pub NoSpace : Str → Type 0
NoSpace = All (λ c. is_space c ≡ false)

trim_right-NoSpace : (s : Str) → NoSpace s → trim_right s ≡ s
unfolding trim_right
trim_right-NoSpace [] h = refl
trim_right-NoSpace (c ∷ s) h = ground (arith, trim_right-NoSpace s)

pub trim_space-NoSpace : (s : Str) → NoSpace s → trim_space s ≡ s
unfolding trim_space
trim_space-NoSpace [] h = refl
trim_space-NoSpace (c ∷ s) h = ground (arith, trim_right-NoSpace (c ∷ s))
