-- ===== src/Secrets/CleanKey/Slashes.antt =====
-- The slash that `CleanKey` does not remove.
use mulch.Prelude.{◌≡◌, refl, List, [], ◌∷◌, arith, ok}
use mulch.Text.{Str, str_eq, str_beq_iff}
use mulch.Text.Words.{is_valid_name, to_upper, split, join}
use mulch.Text.Split.{split-join, trim_space-NoSpace}
use mulch.Secrets.CleanKey.{clean_key, check_path, last_part}
use mulch.Secrets.CleanKey.Accepts.{
  IsKey, Parts-Lacks, all-is_valid_name, last_part-IsPart, join-NoSpace, path_clean-slash,
}

pub split-slash : (s : Str) → split b'/' (b'/' ∷ s) ≡ [] ∷ split b'/' s
unfolding split
split-slash s = refl

check_path-slash :
    (w : Str) (ws : List Str)
    → IsKey w ws
    → check_path (b'/' ∷ join b'/' (w ∷ ws)) ≡ ok (b'/' ∷ join b'/' (w ∷ ws))
unfolding check_path is_valid_name
check_path-slash w ws h =
    let last = last_part (w ∷ ws) in
    ground (
      arith,
      split-slash (join b'/' (w ∷ ws)),
      split-join b'/' w ws (Parts-Lacks (w ∷ ws) h.0),
      all-is_valid_name (w ∷ ws) h.0,
      last_part-IsPart w ws h.0,
      str_beq_iff last (to_upper last),
    )

-- Of two slashes before a key only one is removed: the key is accepted with the other one still
-- before it, as a key of its own.
pub clean_key-slash_slash :
    (w : Str) (ws : List Str)
    → IsKey w ws
    → clean_key (b'/' ∷ b'/' ∷ join b'/' (w ∷ ws)) ≡ ok (b'/' ∷ join b'/' (w ∷ ws))
unfolding clean_key
clean_key-slash_slash w ws h = rw (
  trim_space-NoSpace (b'/' ∷ b'/' ∷ join b'/' (w ∷ ws)) (refl, (refl, join-NoSpace w ws h.0)),
  path_clean-slash w ws h.0,
  check_path-slash w ws h,
)
