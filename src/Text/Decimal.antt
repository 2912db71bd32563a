-- ===== src/Text/Decimal.antt =====
-- `strconv.Itoa` on numbers, and `strconv.Atoi` on strings of digits.
use mulch.Prelude.{
  ℕ, zero, suc, ◌+◌, ◌-◌, ◌*◌, ◌/◌, ◌%◌, ◌^◌, ◌≤◌, ◌<◌, ◌≡◌, refl, ◌∙◌, ap, true, false, Option,
  none, some, [], ◌∷◌, arith, Bool, not, ◌||◌, eqb, ltb, all, if◌then◌else◌, Bool-cases, inl, inr,
}
use mulch.Text.{Str}
use mulch.Text.Words.{is_digit, is_nil}

abbrev pub max_int : ℕ
max_int = 2 ^ 63 - 1

-- One digit a round; `n + 1` rounds are enough for `n`.
unfoldable pub digits : ℕ → ℕ → Str → Str
digits zero n out = out
digits (suc f) n out =
    let rest = digits f (n / 10) ((b'0' + n % 10) ∷ out) in
    if ltb n 10 then (b'0' + n) ∷ out else rest

unfoldable pub itoa : ℕ → Str
unfolding digits
itoa n = digits (suc n) n []

unfoldable pub value : ℕ → Str → ℕ
value n [] = n
value n (c ∷ s) = value (n * 10 + (c - b'0')) s

-- The value of a string of digits, if it is in the range of `int`.
unfoldable pub atoi : Str → Option ℕ
unfolding value
atoi s = let n = value 0 s in if ltb max_int n then none else some n

-- `strconv.Atoi` on any string: an optional sign and digits, in the range of `int`.
pub data ℤ : Type 0 where
  pos : ℕ → ℤ
  negsuc : ℕ → ℤ

abbrev pub neg : ℕ → ℤ
neg zero = pos 0
neg (suc n) = negsuc n

-- `%d`
unfoldable pub itoa_int : ℤ → Str
itoa_int (pos n) = itoa n
itoa_int (negsuc n) = b'-' ∷ itoa (suc n)

unfoldable pub signed : Bool → Str → Option ℤ
unfolding value
signed minus s =
    let n = value 0 s in
    if is_nil s || not (all is_digit s) || ltb (if minus then suc max_int else max_int) n
    then none
    else some (if minus then neg n else pos n)

unfoldable pub atoi_int : Str → Option ℤ
atoi_int [] = none
atoi_int (c ∷ s) =
    if eqb c b'-'
    then signed true s
    else (if eqb c b'+' then signed false s else signed false (c ∷ s))

value-digits : (f n : ℕ) (out : Str) → n < f → value 0 (digits f n out) ≡ value n out
unfolding digits
value-digits zero n out h = absurd (omega arith)
value-digits (suc f) n out h = elim (Bool-cases (ltb n 10)) [
  | inl e ↦ rw e (unfold value in ap (λ k. value k out) (omega arith))
  | inr e ↦ rw e (
      value-digits f (n / 10) ((b'0' + n % 10) ∷ out) (ground arith)
      ∙ (unfold value in ap (λ k. value k out) (omega arith)))
]

all-digits :
    (f n : ℕ) (out : Str)
    → n < f
    → all is_digit out ≡ true
    → (all is_digit (digits f n out) ≡ true) × (is_nil (digits f n out) ≡ false)
unfolding digits
all-digits zero n out h k = absurd (omega arith)
all-digits (suc f) n out h k = ground (arith, all-digits f (n / 10) ((b'0' + n % 10) ∷ out))

-- What `Itoa` prints is a non-empty string of digits.
pub itoa-digits : (n : ℕ) → (all is_digit (itoa n) ≡ true) × (is_nil (itoa n) ≡ false)
unfolding itoa
itoa-digits n = all-digits (suc n) n [] (omega arith) refl

pub value-itoa : (n : ℕ) → value 0 (itoa n) ≡ n
unfolding itoa
value-itoa n = value-digits (suc n) n [] (omega arith) ∙ (unfold value in refl)

pub atoi-itoa : (n : ℕ) → n ≤ max_int → atoi (itoa n) ≡ some n
unfolding atoi
atoi-itoa n h = rw value-itoa (ground arith)
