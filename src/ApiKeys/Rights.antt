-- ===== src/ApiKeys/Rights.antt =====
-- Rights of API keys: `AddNewRight`'s parser, `APIRight.String` and the test of one right in
-- `IsAllowed`, of cmd/mulchd/server/api_keys.go.
use mulch.Prelude.{
  ℕ, Bool, true, false, not, ◌&&◌, ◌||◌, Option, none, some, List, [], ◌∷◌, ◌++◌, eqb, any,
  if◌then◌else◌, ◌==◌, Outcome, ok, err, panic, ◌>>=◌,
}
use mulch.GoMap
use mulch.GoMap.{Map}
use mulch.Text.{Str, lit, str_eq}
use mulch.Text.Words.{is_nil, trim_space, to_upper, split, join}

pub record Right : Type 0 where
  pub method : Str
  pub path : Str
  pub headers : Map Str Str

pub data RightError : Type 0 where
  too_few_parts bad_method bad_path bad_header bad_header_name duplicated_right : RightError

-- `\s` of a Go regular expression: no vertical tab.
abbrev is_re_space : ℕ → Bool
is_re_space c = eqb c 9 || eqb c 10 || eqb c 12 || eqb c 13 || eqb c b' '

-- `ReplaceAllString` of `\s+` by a space; `inside` says that a run has been replaced already.
unfoldable pub collapse : Bool → Str → Str
collapse inside [] = []
collapse inside (c ∷ s) =
    let rest = collapse (is_re_space c) s in
    if is_re_space c then (if inside then rest else b' ' ∷ rest) else c ∷ rest

-- `strings.TrimSpace`, then `\s+` to one space
unfoldable pub clean_right : Str → Str
unfolding collapse trim_space
clean_right s = collapse false (trim_space s)

unfoldable pub is_method : Str → Bool
is_method m =
    any (λ x. x == m)
      (lit "GET" ∷ lit "POST" ∷ lit "PUT" ∷ lit "DELETE" ∷ lit "SSH" ∷ lit "CREATE" ∷ lit "*" ∷ [])

-- `len(path) < 1 || (path[0] != '/' && path[1] != '*')`; an index out of range panics.
unfoldable pub check_right_path : Str → Outcome RightError Str
check_right_path [] = err bad_path
check_right_path (c ∷ []) = if eqb c b'/' then ok (c ∷ []) else panic
check_right_path (c ∷ d ∷ s) =
    if not (eqb c b'/') && not (eqb d b'*') then err bad_path else ok (c ∷ d ∷ s)

header_parts : List Str → Map Str Str → Outcome RightError (Map Str Str)
header_parts (name ∷ value ∷ []) out =
    if is_nil (trim_space name)
    then err bad_header_name
    else ok (GoMap.put (trim_space name) (trim_space value) out)
header_parts _ out = err bad_header

unfoldable pub parse_headers : List Str → Map Str Str → Outcome RightError (Map Str Str)
unfolding header_parts
parse_headers [] out = ok out
parse_headers (h ∷ hs) out = do
  out' ← header_parts (split b'=' (trim_space h)) out
  parse_headers hs out'

with_path : Str → List Str → Outcome RightError Str → Outcome RightError Right
with_path method headers p = do
  path ← p
  hs ← parse_headers headers []
  ok (record { method = method; path = path; headers = hs })

right_of_parts : List Str → Outcome RightError Right
unfolding with_path
right_of_parts (m ∷ p ∷ headers) =
    let method = to_upper (trim_space m) in
    if is_method method
    then with_path method headers (check_right_path (trim_space p))
    else err bad_method
right_of_parts _ = err too_few_parts

-- `AddNewRight` up to the check for a duplicate.
unfoldable pub parse_right : Str → Outcome RightError Right
unfolding right_of_parts
parse_right s = right_of_parts (split b' ' (clean_right s))

header_strings : Map Str Str → List Str
header_strings [] = []
header_strings ((k, v) ∷ m) = (k ++ (lit "=" ++ v)) ∷ header_strings m

-- `String`: the headers follow in the order of the map
unfoldable pub right_string : Right → Str
unfolding header_strings
right_string r =
    let base = r.method ++ (lit " " ++ r.path) in
    if is_nil r.headers then base else base ++ (lit " " ++ join b' ' (header_strings r.headers))

-- The rest stands over `glob.Glob`, of another package.
module _ (glob : Str → Str → Bool) where
  -- The loop over the headers that a right requires; `form` is the request's `FormValue`.
  unfoldable pub header_matches : (Str → Str) → Map Str Str → Bool
  header_matches form [] = true
  header_matches form ((name, expr) ∷ hs) =
      let rest = header_matches form hs in if glob expr (form name) then rest else false

  -- One round of the loop of `IsAllowed`; the request is optional.
  unfoldable pub right_matches : Str → Str → Option (Str → Str) → Right → Bool
  right_matches method path req r =
      if not (glob r.method method)
      then false
      else if not (glob r.path path)
      then false
      else elim req [ none ↦ is_nil r.headers | some form ↦ header_matches form r.headers ]
