-- ===== src/VmPort/RoundTrip.antt =====
-- The texts that `String` of cmd/mulchd/server/vm_port.go writes, read by the parser.
use mulch.Prelude.{
  All-append, All-map, ℕ, ◌≤◌, ◌≡◌, ◌≢◌, refl, sym, ◌∙◌, ap, subst, ◌⊎◌, inl, inr, Bool, true,
  false, ◌||◌, [], ◌∷◌, ◌++◌, all, append_assoc, append-nil, eqb, arith, if◌then◌else◌, All, ok,
}
use mulch.Text.{Str, lit, str_eq}
use mulch.Text.Words.{is_digit, is_word_char, to_lower, trim_space}
use mulch.Text.Split.{Lacks}
use mulch.Text.Decimal.{itoa, itoa-digits}
use mulch.VmPort.{VmPort, Direction, exported, imported, is_import, port_string}
use mulch.VmPort.Bounds.{IsPort}
use mulch.VmPort.Parse.{
  ParseState, public_group, direction_of, split_line, group_of, make_port, next_index, count_port,
  add_port, parse_line,
}
use mulch.VmPort.Texts.{
  true-false, All-all, split_pair-append, contains_pair-append, contains_pair-Lacks,
  port_number-tcp,
}
use mulch.VmPort.Groups.{group-NoSpace, group_of-private, group_of-public, parse_line_lem}

-- The ports whose text says all of them but the index: no PROXY port, and a private group in lower case.
pub record IsPrinted (p : VmPort) : Type 0 where
  pub port : IsPort p
  pub no_proxy : p.proxy_port ≡ 0
  pub lower : (to_lower p.group ≡ p.group) ⊎ (1 ≤ p.public_port)

-- The port of `p` as it is read in a state.
abbrev pub read_port : VmPort → ParseState → VmPort
read_port p st = record p { index = next_index p.direction st }

-- The text before and after the arrow.
abbrev left_of : VmPort → Str
left_of p = itoa p.port ++ lit "/tcp"

abbrev right_of : VmPort → Str
right_of p = p.group ++ (if eqb p.public_port 0 then [] else lit ":" ++ itoa p.public_port)

abbrev arrow_text : Direction → Str
arrow_text exported = lit "->"
arrow_text imported = lit "<-"

arrow-if : (d : Direction) → (if is_import d then lit "<-" else lit "->") ≡ arrow_text d
arrow-if exported = refl
arrow-if imported = refl

port_string-parts :
    (p : VmPort)
    → p.protocol ≡ 0
    → port_string p ≡ left_of p ++ (arrow_text p.direction ++ right_of p)
unfolding port_string
port_string-parts p e =
    rw (e, arrow-if p.direction)
      (sym (append_assoc (itoa p.port) (lit "/tcp") (arrow_text p.direction ++ right_of p)))

lower_of : (p : VmPort) → IsPrinted p → p.public_port ≡ 0 → to_lower p.group ≡ p.group
lower_of p i z = elim i.lower [ inl l ↦ l | inr lo ↦ absurd (omega (arith, lo, z)) ]

private_right : (p : VmPort) → p.public_port ≡ 0 → right_of p ≡ p.group
private_right p z = rw z (append-nil p.group)

public_right :
    (p : VmPort)
    → p.group ≡ public_group
    → 1 ≤ p.public_port
    → right_of p ≡ public_group ++ (lit ":" ++ itoa p.public_port)
public_right p g lo = let e : eqb p.public_port 0 ≡ false = ground (arith, lo) in rw (e, g) refl

is_export : (d : Direction) → is_import d ≡ false → d ≡ exported
is_export exported h = refl
is_export imported h = ground (arith, h)

IsPrinted-group :
    (p : VmPort)
    → IsPrinted p
    → group_of p.direction p.port (trim_space (right_of p)) []
      ≡ ok (p.group, p.public_port, p.proxy_port)
IsPrinted-group p i = elim i.port.grouped [
  | inl (v, z, q) ↦
      ap (λ r. group_of p.direction p.port (trim_space r) []) (private_right p z)
      ∙ group_of-private p.direction p.port p.group v (lower_of p i z)
      ∙ rw (z, q) refl
  | inr (g, x, lo, hi) ↦
      ap (λ r. group_of p.direction p.port (trim_space r) []) (public_right p g lo)
      ∙ ap
          (λ d. group_of d p.port (trim_space (public_group ++ (lit ":" ++ itoa p.public_port))) [])
          (is_export p.direction x)
      ∙ group_of-public p.port p.public_port lo hi
      ∙ rw (g, i.no_proxy) refl
]

-- The bytes of the text, but those of the arrow.
abbrev is_text : ℕ → Bool
is_text x = is_word_char x || eqb x b'@' || eqb x b':' || eqb x b'/'

Lacks-text : (c : ℕ) → is_text c ≡ false → (s : Str) → All (λ x. is_text x ≡ true) s → Lacks c s
Lacks-text c h s k =
    All-map (λ x. is_text x ≡ true) (λ x. x ≢ c) (λ x t e. true-false (sym t ∙ ap is_text e ∙ h)) s
      k

digits-text : (s : Str) → all is_digit s ≡ true → All (λ x. is_text x ≡ true) s
digits-text s h = All-all is_digit (λ x. is_text x ≡ true) (λ x k. ground (arith, k)) s h

left-text : (p : VmPort) → All (λ x. is_text x ≡ true) (left_of p)
left-text p =
    All-append (λ x. is_text x ≡ true) (itoa p.port) (lit "/tcp")
      (digits-text (itoa p.port) (itoa-digits p.port).0) (refl, (refl, (refl, (refl, tt))))

right-text : (p : VmPort) → IsPrinted p → All (λ x. is_text x ≡ true) (right_of p)
right-text p i = elim i.port.grouped [
  | inl (v, z, q) ↦ subst (All (λ x. is_text x ≡ true)) (sym (private_right p z)) (
      All-map (λ c. (is_word_char c || eqb c b'@') ≡ true) (λ x. is_text x ≡ true)
        (λ x k. ground (arith, k)) p.group (group-NoSpace p.group v))
  | inr (g, x, lo, hi) ↦ subst (All (λ x. is_text x ≡ true)) (sym (public_right p g lo)) (
      All-append (λ x. is_text x ≡ true) (lit "@PUBLIC:") (itoa p.public_port)
        (refl, (refl, (refl, (refl, (refl, (refl, (refl, (refl, tt))))))))
        (digits-text (itoa p.public_port) (itoa-digits p.public_port).0))
]

arrow-Lacks : (d : Direction) → Lacks b' ' (arrow_text d)
arrow-Lacks exported = ground arith
arrow-Lacks imported = ground arith

-- The arrow is found, and the line is split at it.
arrow_found :
    (d : Direction) (l r : Str)
    → All (λ x. is_text x ≡ true) l
    → All (λ x. is_text x ≡ true) r
    → (direction_of (l ++ (arrow_text d ++ r)) ≡ ok d)
      × (split_line d (l ++ (arrow_text d ++ r)) ≡ l ∷ r ∷ [])
unfolding direction_of
arrow_found exported l r h k = (
  rw (contains_pair-append b'-' b'>' l r) refl,
  split_pair-append b'-' b'>' l r (ground arith) (Lacks-text b'-' refl l h)
      (Lacks-text b'-' refl r k),
)
arrow_found imported l r h k = (
  rw
      (
        contains_pair-Lacks b'-' b'>' (l ++ (lit "<-" ++ r)) (
            All-append (λ x. x ≢ b'>') l (lit "<-" ++ r) (Lacks-text b'>' refl l h)
              (ground arith, (ground arith, Lacks-text b'>' refl r k))),
        contains_pair-append b'<' b'-' l r,
      )
      refl,
  split_pair-append b'<' b'-' l r (ground arith) (Lacks-text b'<' refl l h)
      (Lacks-text b'<' refl r k),
)

-- The text that String writes for a port is parsed as this port, with the next index of its direction, and added unless it is a duplicate: provided that the port is as the parser makes them (numbers in bounds, a valid group), has no PROXY port, and its group, if private, is in lower case.
pub parse_line-port_string :
    (p : VmPort) (st : ParseState)
    → IsPrinted p
    → parse_line (port_string p) st ≡ add_port (count_port p.direction st) (read_port p st)
unfolding make_port
parse_line-port_string p st i =
    let l = left-text p in
    let r = right-text p i in
    let f = arrow_found p.direction (left_of p) (right_of p) l r in
    ap (λ s. parse_line s st) (port_string-parts p i.port.tcp)
    ∙ parse_line_lem (left_of p ++ (arrow_text p.direction ++ right_of p)) (left_of p) (right_of p)
        p.direction p.port (p.group, p.public_port, p.proxy_port) st
        (All-append (λ x. x ≢ b' ') (left_of p) (arrow_text p.direction ++ right_of p)
          (Lacks-text b' ' refl (left_of p) l)
          (All-append (λ x. x ≢ b' ') (arrow_text p.direction) (right_of p)
            (arrow-Lacks p.direction) (Lacks-text b' ' refl (right_of p) r)))
        f.0 f.1 (port_number-tcp p.port i.port.low i.port.high) (IsPrinted-group p i)
    ∙ ap
        (λ k.
          add_port (count_port p.direction st)
            (record p { protocol = k; index = next_index p.direction st }))
        (sym i.port.tcp)
