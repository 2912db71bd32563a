-- ===== src/Text/Words.antt =====
-- What the program uses of `strings` and `path`, on byte strings, and IsValidName of
-- cmd/mulchd/server/tools.go. White space is that of ASCII.
use mulch.Prelude.{
  ℕ, ◌+◌, ◌-◌, Bool, true, false, ◌&&◌, ◌||◌, List, [], ◌∷◌, ◌++◌, eqb, leb, all, if◌then◌else◌,
  ◌==◌,
}
use mathlib.Core.List.{reverse}
use mulch.Text.{Str, lit, str_eq}

abbrev pub is_space : ℕ → Bool
is_space c = eqb c b' ' || (leb 9 c && leb c 13)

-- `[A-Za-z0-9_]`
abbrev pub is_word_char : ℕ → Bool
is_word_char c =
    (leb b'A' c && leb c b'Z')
    || (leb b'a' c && leb c b'z')
    || (leb b'0' c && leb c b'9')
    || eqb c b'_'

abbrev pub is_digit : ℕ → Bool
is_digit c = leb b'0' c && leb c b'9'

abbrev pub upper_char : ℕ → ℕ
upper_char c = if leb b'a' c && leb c b'z' then c - 32 else c

abbrev pub lower_char : ℕ → ℕ
lower_char c = if leb b'A' c && leb c b'Z' then c + 32 else c

-- `IsValidName`: the pattern has a star, so the empty string is valid.
unfoldable pub is_valid_name : Str → Bool
is_valid_name = all is_word_char

unfoldable pub to_upper : Str → Str
to_upper [] = []
to_upper (c ∷ s) = upper_char c ∷ to_upper s

unfoldable pub to_lower : Str → Str
to_lower [] = []
to_lower (c ∷ s) = lower_char c ∷ to_lower s

abbrev pub is_nil {ℓ} : {A : Type ℓ} → List A → Bool
is_nil [] = true
is_nil (x ∷ xs) = false

unfoldable pub trim_left : Str → Str
trim_left [] = []
trim_left (c ∷ s) = let rest = trim_left s in if is_space c then rest else c ∷ s

unfoldable pub trim_right : Str → Str
trim_right [] = []
trim_right (c ∷ s) = let rest = trim_right s in if is_space c && is_nil rest then [] else c ∷ rest

-- `strings.TrimSpace`
unfoldable pub trim_space : Str → Str
unfolding trim_left trim_right
trim_space s = trim_right (trim_left s)

abbrev pub push_head : ℕ → List Str → List Str
push_head c [] = (c ∷ []) ∷ []
push_head c (w ∷ ws) = (c ∷ w) ∷ ws

-- `strings.Split` at a separator of one byte
unfoldable pub split : ℕ → Str → List Str
split sep [] = [] ∷ []
split sep (c ∷ s) = let rest = split sep s in if eqb c sep then [] ∷ rest else push_head c rest

-- `strings.Join` with a separator of one byte
unfoldable pub join : ℕ → List Str → Str
join sep [] = []
join sep (w ∷ []) = w
join sep (w ∷ v ∷ ws) = w ++ (sep ∷ join sep (v ∷ ws))

abbrev pub starts_with : Str → Str → Bool
starts_with [] s = true
starts_with (p ∷ ps) [] = false
starts_with (p ∷ ps) (c ∷ s) = eqb p c && starts_with ps s

-- `path.Clean`, by its documented rules: `out` holds the elements kept so far, the last one first.
abbrev pub up : Bool → List Str → List Str
up rooted [] = if rooted then [] else lit ".." ∷ []
up rooted (q ∷ out) = if q == lit ".." then lit ".." ∷ q ∷ out else out

unfoldable pub clean_part : Bool → Str → List Str → List Str
clean_part rooted p out =
    if is_nil p || p == lit "." then out else if p == lit ".." then up rooted out else p ∷ out

unfoldable pub clean_parts : Bool → List Str → List Str → List Str
unfolding clean_part
clean_parts rooted out [] = out
clean_parts rooted out (p ∷ ps) = clean_parts rooted (clean_part rooted p out) ps

unfoldable pub path_clean : Str → Str
unfolding clean_parts split join
path_clean s =
    let rooted = starts_with (lit "/") s in
    let body = join b'/' (reverse (clean_parts rooted [] (split b'/' s))) in
    if rooted then b'/' ∷ body else if is_nil body then lit "." else body
