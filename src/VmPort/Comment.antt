-- ===== src/VmPort/Comment.antt =====
-- The texts of cmd/mulchd/server/vm_port.go: `portExtractComment`, and what it uses of `strings`.
use mulch.Prelude.{
  ℕ, Bool, false, ◌&&◌, ◌||◌, Option, none, some, List, [], ◌∷◌, any, all, eqb, if◌then◌else◌,
}
use mulch.Text.{Str}
use mulch.Text.Words.{is_word_char}

-- The text before a final `)`.
unfoldable pub strip_close : Str → Option Str
strip_close [] = none
strip_close (c ∷ []) = if eqb c b')' then some [] else none
strip_close (c ∷ d ∷ s) = elim (strip_close (d ∷ s)) [ none ↦ none | some k ↦ some (c ∷ k) ]

-- `(\((.*)\))?$` after a space
unfoldable pub comment_of : Str → Option Str
comment_of [] = some []
comment_of (c ∷ s) = if eqb c b'(' then strip_close s else none

-- The pattern is greedy: the last space that a comment, or nothing, follows.
unfoldable pub split_comment : Str → Option (Str × Str)
split_comment [] = none
split_comment (c ∷ s) = elim (split_comment s) [
  | some (before, comment) ↦ some (c ∷ before, comment)
  | none ↦ elim (if eqb c b' ' then comment_of s else none) [
    | none ↦ none
    | some comment ↦ some ([], comment)
  ]
]

-- `portExtractComment`; the dot of the pattern does not match a line feed.
unfoldable pub port_extract_comment : Str → Str × Str
port_extract_comment line = elim (if any (eqb 10) line then none else split_comment line) [
  | none ↦ (line, [])
  | some (port, comment) ↦ (port, comment)
]

unfoldable pub starts_with_char : ℕ → Str → Bool
starts_with_char c [] = false
starts_with_char c (x ∷ s) = eqb x c

-- `strings.Contains` and `strings.Split` for two different bytes `a` and `b`.
unfoldable pub contains_pair : ℕ → ℕ → Str → Bool
unfolding starts_with_char
contains_pair a b [] = false
contains_pair a b (c ∷ s) = (eqb c a && starts_with_char b s) || contains_pair a b s

unfoldable pub put_first : ℕ → List Str → List Str
put_first c [] = []
put_first c (w ∷ ws) = (c ∷ w) ∷ ws

unfoldable pub cut_first : List Str → List Str
cut_first [] = []
cut_first ([] ∷ ws) = [] ∷ ws
cut_first ((c ∷ w) ∷ ws) = w ∷ ws

unfoldable pub split_pair : ℕ → ℕ → Str → List Str
unfolding starts_with_char put_first cut_first
split_pair a b [] = [] ∷ []
split_pair a b (c ∷ s) =
    let rest = split_pair a b s in
    if eqb c a && starts_with_char b s then [] ∷ cut_first rest else put_first c rest

-- `IsValidGroupName` of cmd/mulchd/server/tools.go
unfoldable pub is_valid_group_name : Str → Bool
is_valid_group_name [] = false
is_valid_group_name (c ∷ s) = eqb c b'@' && all is_word_char s
