-- ===== src/Secrets/CleanKey.antt =====
-- `CleanKey` of cmd/mulchd/server/secret_database.go: from a path typed by a user to a key.
pub mod Accepts
pub mod Slashes
pub mod Sound
use mulch.Prelude.{
  Bool, true, false, not, List, [], ◌∷◌, all, if◌then◌else◌, ◌==◌, Outcome, ok, err,
}
use mulch.Text.{Str, lit, str_eq}
use mulch.Text.Words.{is_nil, is_valid_name, to_upper, trim_space, split, starts_with, path_clean}

pub data KeyError : Type 0 where
  empty_key invalid_part empty_env not_upper : KeyError

-- "remove leading slash"
drop_slash : Str → Str
drop_slash [] = []
drop_slash (c ∷ s) = if starts_with (lit "/") (c ∷ s) then s else c ∷ s

-- `parts[len(parts)-1]`; a split is never empty.
abbrev pub last_part : List Str → Str
last_part [] = []
last_part (p ∷ []) = p
last_part (p ∷ q ∷ ps) = last_part (q ∷ ps)

check_env : Str → Str → Outcome KeyError Str
check_env path env =
    if is_nil env
    then err empty_env
    else if not (env == to_upper env)
    then err not_upper
    else ok path

check_path : Str → Outcome KeyError Str
unfolding check_env
check_path path =
    let parts = split b'/' path in
    if all is_valid_name parts then check_env path (last_part parts) else err invalid_part

unfoldable pub clean_key : Str → Outcome KeyError Str
unfolding drop_slash check_path
clean_key key_path =
    let path = trim_space key_path in
    if is_nil path then err empty_key else check_path (path_clean (drop_slash path))
