-- ===== src/Config/Origins.antt =====
-- cmd/mulchd/server/origin.go: `GetOriginFromPath` and `GetContent`, and `GetURLScheme` of tools.go.
-- What is fetched from an origin, by HTTP or from a file comes from outside.
use mulch.Prelude.{
  Bool, true, false, ◌||◌, Option, none, some, List, [], ◌∷◌, any, eqb, ◌==◌, if◌then◌else◌,
}
use mulch.Text.{Str, lit, str_eq}
use mulch.Text.Words.{split, join, is_nil}
use mulch.Config.{Outside}

-- The origin, the path under it, and whether there is an error.
abbrev pub Origin : Type 0
Origin = Str × Str × Bool

abbrev pub no_origin : Origin
no_origin = ([], [], false)

-- The text before a final `}`.
unfoldable pub before_brace : Str → Option Str
before_brace [] = none
before_brace (c ∷ []) = if eqb c b'}' then some [] else none
before_brace (c ∷ d ∷ s) = elim (before_brace (d ∷ s)) [ none ↦ none | some w ↦ some (c ∷ w) ]

unfoldable pub known_origin : List Str → Option Str → List Str → Origin
known_origin origins none parts = no_origin
known_origin origins (some origin) parts =
    if any (λ o. o == origin) origins then (origin, join b'/' parts, false) else ([], [], true)

unfoldable pub origin_of_parts : List Str → List Str → Origin
origin_of_parts origins [] = no_origin
origin_of_parts origins (part0 ∷ []) = no_origin
origin_of_parts origins (part0 ∷ part1 ∷ parts) =
    known_origin origins (before_brace part0) (part1 ∷ parts)

-- `GetOriginFromPath`: the path starts with a brace, which is not a slash, so the first part is what
-- follows the brace in the first part of the rest.
unfoldable pub get_origin_from_path : List Str → Str → Origin
get_origin_from_path origins [] = no_origin
get_origin_from_path origins (c ∷ s) =
    if eqb c b'{' then origin_of_parts origins (split b'/' s) else no_origin

unfoldable pub scheme_or_nil : Option Str → Str
scheme_or_nil none = []
scheme_or_nil (some s) = s

unfoldable pub content_under : Outside → Origin → Option (Option Str)
content_under out (origin, subpath, failed) =
    if failed || is_nil origin then none else out.from_origin origin subpath

unfoldable pub content_at : Outside → Str → Str → Option (Option Str)
content_at out path scheme =
    if is_nil scheme
    then content_under out (get_origin_from_path out.origins path)
    else if scheme == lit "http" || scheme == lit "https"
    then out.from_http path
    else if scheme == lit "file"
    then out.from_file path
    else none

unfoldable pub content_with : Outside → Str → Option Str → Option (Option Str)
content_with out path none = none
content_with out path (some scheme) = content_at out path scheme

-- `GetContent`
unfoldable pub get_content : Outside → Str → Option (Option Str)
get_content out path = content_with out path (out.parse_scheme path)
