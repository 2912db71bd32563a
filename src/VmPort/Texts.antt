-- ===== src/VmPort/Texts.antt =====
-- The texts that the parser of cmd/mulchd/server/vm_port.go splits.
use mulch.Prelude.{
  All-append, ℕ, ◌≤◌, ◌≡◌, ◌≢◌, refl, ◌∙◌, ap, Bool, true, false, Option, none, some, [], ◌∷◌, ◌++◌,
  any, all, eqb, ltb, arith, if◌then◌else◌, All, ok,
}
use mulch.Text.{Str, lit, str_eq, str_beq_iff}
use mulch.Text.Words.{is_digit, is_nil, is_space, to_lower, lower_char, trim_space, split}
use mulch.Text.Split.{Lacks, trim_space-NoSpace, split-append}
use mulch.Text.Decimal.{pos, max_int, itoa, value, signed, atoi_int, itoa-digits, value-itoa}
use mulch.VmPort.Comment.{
  port_extract_comment, split_comment, contains_pair, split_pair, starts_with_char, put_first,
  cut_first,
}
use mulch.VmPort.Parse.{bounded, port_number, tcp_port}

pub true-false : true ≡ false → ⊥
true-false e = ground (arith, e)

-- Every byte of a string passes a test.
pub All-all :
    (p : ℕ → Bool) (Q : ℕ → Type 0)
    → ((c : ℕ) → p c ≡ true → Q c)
    → (s : Str) → all p s ≡ true
    → All Q s
All-all p Q f [] h = tt
All-all p Q f (c ∷ s) h = (f c (ground (arith, h)), All-all p Q f s (ground (arith, h)))

split_comment-Lacks : (s : Str) → Lacks b' ' s → split_comment s ≡ none
unfolding split_comment
split_comment-Lacks [] h = refl
split_comment-Lacks (c ∷ s) h =
    let e : eqb c b' ' ≡ false = ground (arith, h.0) in rw (split_comment-Lacks s h.1, e) refl

if-none : (b : Bool) (o : Option (Str × Str)) → o ≡ none → (if b then none else o) ≡ none
if-none true o e = refl
if-none false o e = e

pub no_comment : (s : Str) → Lacks b' ' s → port_extract_comment s ≡ (s, [])
unfolding port_extract_comment
no_comment s h =
    ap
      (λ (o : Option (Str × Str)). elim o [
        | none ↦ (s, [])
        | some (port, comment) ↦ (port, comment)
      ])
      (if-none (any (eqb 10) s) (split_comment s) (split_comment-Lacks s h))

split_pair-Lacks : (a b : ℕ) (s : Str) → Lacks a s → split_pair a b s ≡ s ∷ []
unfolding split_pair put_first
split_pair-Lacks a b [] h = refl
split_pair-Lacks a b (c ∷ s) h = ground (arith, split_pair-Lacks a b s h.1, h.0)

pub split_pair-append :
    (a b : ℕ) (s t : Str)
    → a ≢ b
    → Lacks a s
    → Lacks a t
    → split_pair a b (s ++ (a ∷ b ∷ t)) ≡ s ∷ t ∷ []
unfolding split_pair put_first cut_first starts_with_char
split_pair-append a b [] t n h k = ground (arith, split_pair-Lacks a b t k)
split_pair-append a b (c ∷ s) t n h k = ground (arith, split_pair-append a b s t n h.1 k, h.0)

pub contains_pair-append : (a b : ℕ) (s t : Str) → contains_pair a b (s ++ (a ∷ b ∷ t)) ≡ true
unfolding contains_pair starts_with_char
contains_pair-append a b [] t = ground arith
contains_pair-append a b (c ∷ s) t = ground (arith, contains_pair-append a b s t)

pub contains_pair-Lacks : (a b : ℕ) (s : Str) → Lacks b s → contains_pair a b s ≡ false
unfolding contains_pair starts_with_char
contains_pair-Lacks a b [] h = refl
contains_pair-Lacks a b (c ∷ []) h = ground arith
contains_pair-Lacks a b (c ∷ d ∷ s) h = ground (arith, contains_pair-Lacks a b (d ∷ s) h.1, h.1.0)

to_lower-same : (s t : Str) → to_lower (s ++ t) ≡ to_lower s ++ to_lower t
unfolding to_lower
to_lower-same [] t = refl
to_lower-same (c ∷ s) t = ap (λ r. lower_char c ∷ r) (to_lower-same s t)

to_lower-digits : (s : Str) → all is_digit s ≡ true → to_lower s ≡ s
unfolding to_lower
to_lower-digits [] h = refl
to_lower-digits (c ∷ s) h =
    let e : lower_char c ≡ c = ground (arith, h) in
    ap (λ d. d ∷ to_lower s) e ∙ ap (λ r. c ∷ r) (to_lower-digits s (ground (arith, h)))

signed-digits :
    (s : Str) (n : ℕ)
    → all is_digit s ≡ true
    → is_nil s ≡ false
    → value 0 s ≡ n
    → n ≤ max_int
    → signed false s ≡ some (pos n)
unfolding signed
signed-digits s n h k v le =
    let e : ltb max_int n ≡ false = ground (arith, le) in rw (h, k, v, e) refl

atoi_int-digits :
    (s : Str) (n : ℕ)
    → all is_digit s ≡ true
    → is_nil s ≡ false
    → value 0 s ≡ n
    → n ≤ max_int
    → atoi_int s ≡ some (pos n)
unfolding atoi_int signed
atoi_int-digits [] n h k v le = ground (arith, k)
atoi_int-digits (c ∷ s) n h k v le =
    let minus : eqb c b'-' ≡ false = ground (arith, h) in
    let plus : eqb c b'+' ≡ false = ground (arith, h) in
    rw (minus, plus) (signed-digits (c ∷ s) n h k v le)

bounded-pos : (n : ℕ) → 1 ≤ n → n ≤ 65535 → bounded (some (pos n)) ≡ ok n
unfolding bounded
bounded-pos n lo hi = ground arith

-- A port number that `Itoa` prints is read back.
pub bounded-itoa : (n : ℕ) → 1 ≤ n → n ≤ 65535 → bounded (atoi_int (itoa n)) ≡ ok n
bounded-itoa n lo hi =
    let d = itoa-digits n in
    ap bounded (atoi_int-digits (itoa n) n d.0 d.1 (value-itoa n) (omega (arith, hi)))
    ∙ bounded-pos n lo hi

-- The part of the text before the arrow.
pub port_number-tcp :
    (n : ℕ)
    → 1 ≤ n
    → n ≤ 65535
    → port_number (split b'/' (trim_space (to_lower (itoa n ++ lit "/tcp")))) ≡ ok n
unfolding port_number tcp_port to_lower mulch.Text.str_beq split
port_number-tcp n lo hi =
    let d = itoa-digits n in
    let lower : to_lower (itoa n ++ lit "/tcp") ≡ itoa n ++ lit "/tcp" =
      to_lower-same (itoa n) (lit "/tcp")
      ∙ ap (λ r. r ++ lit "/tcp") (to_lower-digits (itoa n) d.0) in
    let trim : trim_space (itoa n ++ lit "/tcp") ≡ itoa n ++ lit "/tcp" =
      trim_space-NoSpace (itoa n ++ lit "/tcp") (
        All-append (λ c. is_space c ≡ false) (itoa n) (lit "/tcp")
          (All-all is_digit (λ c. is_space c ≡ false) (λ c h. ground (arith, h)) (itoa n) d.0)
          (refl, (refl, (refl, (refl, tt))))) in
    let parts : split b'/' (itoa n ++ lit "/tcp") ≡ itoa n ∷ lit "tcp" ∷ [] =
      split-append b'/' (itoa n) (lit "tcp")
        (All-all is_digit (λ c. c ≢ b'/') (λ c h. ground (arith, h)) (itoa n) d.0) in
    rw (lower, trim, parts, bounded-itoa n lo hi) refl
