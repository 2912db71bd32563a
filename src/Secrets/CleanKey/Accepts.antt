-- ===== src/Secrets/CleanKey/Accepts.antt =====
-- The keys that `CleanKey` accepts.
use mathlib.Core.List.{reverse, reverse-cons}
use mulch.Prelude.{
  ℕ, ◌≡◌, ◌≢◌, refl, subst, ◌∙◌, Bool, true, false, List, [], ◌∷◌, ◌++◌, append_assoc, append-nil,
  arith, all, All, ok,
}
use mulch.Text.{Str, lit, str_eq, str_beq, str_beq_iff}
use mulch.Text.Words.{
  is_space, is_nil, is_word_char, is_valid_name, to_upper, join, clean_part, clean_parts,
  path_clean, starts_with,
}
use mulch.Text.Split.{Lacks, NoSpace, split-join, trim_space-NoSpace}
use mulch.Secrets.CleanKey.{drop_slash, clean_key, check_path, last_part}

-- A valid, non-empty element of a key.
abbrev pub IsPart : Str → Type 0
IsPart w = (is_valid_name w ≡ true) × (is_nil w ≡ false)

word_char_ne_slash : (c : ℕ) → is_word_char c ≡ true → c ≢ b'/'
word_char_ne_slash c h = ground arith

word_char_no_space : (c : ℕ) → is_word_char c ≡ true → is_space c ≡ false
word_char_no_space c h = ground arith

is_valid_name-Lacks : (w : Str) → is_valid_name w ≡ true → Lacks b'/' w
unfolding is_valid_name
is_valid_name-Lacks [] h = tt
is_valid_name-Lacks (c ∷ w) h =
    (word_char_ne_slash c (ground arith), is_valid_name-Lacks w (ground arith))

is_valid_name-NoSpace : (w s : Str) → is_valid_name w ≡ true → NoSpace s → NoSpace (w ++ s)
unfolding is_valid_name
is_valid_name-NoSpace [] s h k = k
is_valid_name-NoSpace (c ∷ w) s h k =
    (word_char_no_space c (ground arith), is_valid_name-NoSpace w s (ground arith) k)

pub Parts-Lacks : (ws : List Str) → All IsPart ws → All (Lacks b'/') ws
Parts-Lacks [] h = tt
Parts-Lacks (w ∷ ws) h = (is_valid_name-Lacks w h.0.0, Parts-Lacks ws h.1)

pub join-NoSpace : (w : Str) (ws : List Str) → All IsPart (w ∷ ws) → NoSpace (join b'/' (w ∷ ws))
unfolding join
join-NoSpace w [] h = subst NoSpace (append-nil w) (is_valid_name-NoSpace w [] h.0.0 tt)
join-NoSpace w (v ∷ ws) h =
    is_valid_name-NoSpace w (b'/' ∷ join b'/' (v ∷ ws)) h.0.0 (refl, join-NoSpace v ws h.1)

-- A valid element is neither empty nor a dot or two.
clean_part-IsPart : (r : Bool) (w : Str) (out : List Str) → IsPart w → clean_part r w out ≡ w ∷ out
unfolding clean_part is_valid_name str_beq
clean_part-IsPart r [] out h = ground arith
clean_part-IsPart r (c ∷ w) out h = ground arith

reverse-clean_parts :
    (r : Bool) (ws out : List Str)
    → All IsPart ws
    → reverse (clean_parts r out ws) ≡ reverse out ++ ws
unfolding clean_parts
reverse-clean_parts r [] out h = rw append-nil
reverse-clean_parts r (w ∷ ws) out h =
    rw (clean_part-IsPart, h.0)
      (reverse-clean_parts r ws (w ∷ out) h.1
        ∙ (rw reverse-cons (append_assoc (reverse out) (w ∷ []) ws)))

starts_with-join :
    (w : Str) (ws : List Str)
    → All IsPart (w ∷ ws)
    → (starts_with (lit "/") (join b'/' (w ∷ ws)) ≡ false) × (is_nil (join b'/' (w ∷ ws)) ≡ false)
unfolding join is_valid_name
starts_with-join [] [] h = ground arith
starts_with-join (c ∷ w) [] h = ground (arith, word_char_ne_slash c)
starts_with-join [] (v ∷ ws) h = ground arith
starts_with-join (c ∷ w) (v ∷ ws) h = ground (arith, word_char_ne_slash c)

-- `path.Clean` leaves a joined list of valid elements alone, with or without a slash before it.
path_clean-join :
    (w : Str) (ws : List Str)
    → All IsPart (w ∷ ws)
    → path_clean (join b'/' (w ∷ ws)) ≡ join b'/' (w ∷ ws)
unfolding path_clean
path_clean-join w ws h =
    let k = starts_with-join w ws h in
    rw (k.0, split-join b'/' w ws (Parts-Lacks (w ∷ ws) h), reverse-clean_parts false (w ∷ ws) [] h)
      (rw k.1)

pub path_clean-slash :
    (w : Str) (ws : List Str)
    → All IsPart (w ∷ ws)
    → path_clean (b'/' ∷ join b'/' (w ∷ ws)) ≡ b'/' ∷ join b'/' (w ∷ ws)
unfolding path_clean
path_clean-slash w ws h =
    rw (split-join b'/' w ws (Parts-Lacks (w ∷ ws) h), reverse-clean_parts true (w ∷ ws) [] h)

pub all-is_valid_name : (ws : List Str) → All IsPart ws → all is_valid_name ws ≡ true
all-is_valid_name [] h = refl
all-is_valid_name (w ∷ ws) h = ground (arith, all-is_valid_name ws)

pub last_part-IsPart :
    (w : Str) (ws : List Str) → All IsPart (w ∷ ws) → is_nil (last_part (w ∷ ws)) ≡ false
last_part-IsPart w [] h = h.0.1
last_part-IsPart w (v ∷ ws) h = last_part-IsPart v ws h.1

-- A list of elements whose last one is in upper case.
abbrev pub IsKey : Str → List Str → Type 0
IsKey w ws = All IsPart (w ∷ ws) × (to_upper (last_part (w ∷ ws)) ≡ last_part (w ∷ ws))

check_path-join :
    (w : Str) (ws : List Str)
    → IsKey w ws
    → check_path (join b'/' (w ∷ ws)) ≡ ok (join b'/' (w ∷ ws))
unfolding check_path
check_path-join w ws h =
    let last = last_part (w ∷ ws) in
    ground (
      arith,
      split-join b'/' w ws (Parts-Lacks (w ∷ ws) h.0),
      all-is_valid_name (w ∷ ws) h.0,
      last_part-IsPart w ws h.0,
      str_beq_iff last (to_upper last),
    )

drop_slash-id : (s : Str) → starts_with (lit "/") s ≡ false → drop_slash s ≡ s
unfolding drop_slash
drop_slash-id [] h = refl
drop_slash-id (c ∷ s) h = ground arith

-- A key made of valid elements, the last one in upper case, is accepted as it is, and accepted
-- without its slash when one slash is typed before it.
clean_key-join :
    (w : Str) (ws : List Str)
    → IsKey w ws
    → (clean_key (join b'/' (w ∷ ws)) ≡ ok (join b'/' (w ∷ ws)))
      × (clean_key (b'/' ∷ join b'/' (w ∷ ws)) ≡ ok (join b'/' (w ∷ ws)))
unfolding clean_key
clean_key-join w ws h =
    let plain = starts_with-join w ws h.0 in
    let bare = join-NoSpace w ws h.0 in
    (
      ground (
        arith,
        trim_space-NoSpace (join b'/' (w ∷ ws)) bare,
        plain,
        drop_slash-id (join b'/' (w ∷ ws)) plain.0,
        path_clean-join w ws h.0,
        check_path-join w ws h,
      ),
      rw (
        trim_space-NoSpace (b'/' ∷ join b'/' (w ∷ ws)) (refl, bare),
        path_clean-join w ws h.0,
        check_path-join w ws h,
      ),
    )
