-- ===== src/VmPort/Groups.antt =====
-- The groups of cmd/mulchd/server/vm_port.go that are read as they are written.
use mulch.Prelude.{
  All-append, All-map, ℕ, ◌≤◌, ◌≡◌, ◌≢◌, refl, ap, true, false, ◌||◌, [], ◌∷◌, ◌++◌, eqb, arith,
  All, ok,
}
use mulch.Text.{Str, lit, str_eq, str_beq_iff}
use mulch.Text.Words.{
  is_digit, is_space, is_word_char, to_lower, lower_char, trim_space, split, starts_with,
}
use mulch.Text.Split.{Lacks, trim_space-NoSpace, split-word}
use mulch.Text.Decimal.{itoa, itoa-digits}
use mulch.VmPort.{Direction, exported}
use mulch.VmPort.Comment.{is_valid_group_name}
use mulch.VmPort.Parse.{
  ParseState, public_group, direction_of, split_line, port_number, group_of, private_group_of,
  public_group_of, public_port_of, proxy_port_of, port_of, make_port, next_index, count_port,
  add_port, parse_line,
}
use mulch.VmPort.Texts.{All-all, no_comment, bounded-itoa}

tail_of : Str → Str
tail_of [] = []
tail_of (c ∷ s) = s

head_of : Str → ℕ
head_of [] = 0
head_of (c ∷ s) = c

second : (c b : ℕ) (s : Str) → to_lower (c ∷ b ∷ s) ≡ c ∷ b ∷ s → lower_char b ≡ b
unfolding to_lower tail_of head_of
second c b s h = ap (λ r. head_of (tail_of r)) h

-- The groups that are read back as they are written: private ones in lower case.
starts_with-lower : (s : Str) → to_lower s ≡ s → starts_with public_group s ≡ false
unfolding to_lower
starts_with-lower [] h = refl
starts_with-lower (c ∷ []) h = ground arith
starts_with-lower (c ∷ b ∷ s) h = let e : lower_char b ≡ b = second c b s h in ground (arith, e)

pub group-NoSpace :
    (s : Str) → is_valid_group_name s ≡ true → All (λ c. (is_word_char c || eqb c b'@') ≡ true) s
unfolding is_valid_group_name
group-NoSpace [] h = ground (arith, h)
group-NoSpace (c ∷ s) h = (
  ground (arith, h),
  All-all is_word_char (λ c. (is_word_char c || eqb c b'@') ≡ true) (λ c k. ground (arith, k)) s
      (ground (arith, h)),
)

pub group_of-private :
    (d : Direction) (n : ℕ) (s : Str)
    → is_valid_group_name s ≡ true
    → to_lower s ≡ s
    → group_of d n (trim_space s) [] ≡ ok (s, 0, 0)
unfolding group_of private_group_of
group_of-private d n s v l =
    let trim : trim_space s ≡ s = trim_space-NoSpace s (
      All-map (λ c. (is_word_char c || eqb c b'@') ≡ true) (λ c. is_space c ≡ false)
        (λ c k. ground (arith, k)) s (group-NoSpace s v)) in
    rw (trim, starts_with-lower s l, l, v) refl

pub group_of-public :
    (n p : ℕ)
    → 1 ≤ p
    → p ≤ 65535
    → group_of exported n (trim_space (public_group ++ (lit ":" ++ itoa p))) []
      ≡ ok (public_group, p, 0)
unfolding group_of public_group_of public_port_of proxy_port_of split mulch.Text.str_beq
group_of-public n p lo hi =
    let d = itoa-digits p in
    let trim : trim_space (public_group ++ (lit ":" ++ itoa p))
        ≡ public_group ++ (lit ":" ++ itoa p) =
      trim_space-NoSpace (public_group ++ (lit ":" ++ itoa p)) (
        All-append (λ c. is_space c ≡ false) (lit "@PUBLIC:") (itoa p)
          (refl, (refl, (refl, (refl, (refl, (refl, (refl, (refl, tt))))))))
          (All-all is_digit (λ c. is_space c ≡ false) (λ c h. ground (arith, h)) (itoa p) d.0)) in
    let parts : split b':' (itoa p) ≡ itoa p ∷ [] =
      split-word b':' (itoa p)
        (All-all is_digit (λ c. c ≢ b':') (λ c h. ground (arith, h)) (itoa p) d.0) in
    rw (trim, parts, bounded-itoa p lo hi) refl

-- A line without comment, whose parts are read.
pub parse_line_lem :
    (line left right : Str) (d : Direction) (n : ℕ) (g : Str × ℕ × ℕ) (st : ParseState)
    → Lacks b' ' line
    → direction_of line ≡ ok d
    → split_line d line ≡ left ∷ right ∷ []
    → port_number (split b'/' (trim_space (to_lower left))) ≡ ok n
    → group_of d n (trim_space right) [] ≡ ok g
    → parse_line line st ≡ add_port (count_port d st) (make_port d (next_index d st) n g)
unfolding parse_line port_of
parse_line_lem line left right d n g st k e s p q = rw (no_comment line k, e, s, p, q) refl
