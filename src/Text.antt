-- ===== src/Text.antt =====
-- Go strings: byte strings, a byte being a number.
pub mod Words
pub mod Split
pub mod Decimal
use Prim.Native.Char.{code}
use Prim.Native.String.{String}
use mulch.Prelude.{ℕ, ◌≡◌, ◌↔◌, Bool, true, false, ◌&&◌, List, [], ◌∷◌, arith, eqb, Comparable}

abbrev pub Str : Type 0
Str = List ℕ

-- A string literal (ASCII).
abbrev pub lit : String → Str
lit String.[] = []
lit (String.◌∷◌ c s) = code c ∷ lit s

unfoldable pub str_beq : Str → Str → Bool
str_beq [] [] = true
str_beq (a ∷ s) (b ∷ t) = eqb a b && str_beq s t
str_beq _ _ = false

pub str_beq_iff : (s t : Str) → (str_beq s t ≡ true) ↔ (s ≡ t)
unfolding str_beq
str_beq_iff [] [] = ground arith
str_beq_iff (a ∷ s) (b ∷ t) = ground (arith, str_beq_iff s t)
str_beq_iff [] (b ∷ t) = ground arith
str_beq_iff (a ∷ s) [] = ground arith

instance abbrev pub str_eq : Comparable Str
str_eq = record { equal = str_beq; equal_iff = str_beq_iff }
