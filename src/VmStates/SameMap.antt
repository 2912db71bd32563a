-- ===== src/VmStates/SameMap.antt =====
-- The comparison of two maps of states.
use mulch.Prelude.{
  suc, ◌≡◌, refl, sym, ap, true, Option, none, some, [], ◌∷◌, arith, length, if◌then◌else◌, ◌==◌,
}
use mulch.GoMap.{get, remove}
use mulch.GoMap.Laws.{get-remove, IsMap, remove-IsMap}
use mulch.Text.{Str, str_eq, str_beq_iff}
use mulch.VmStates.{States, has_value, same_entries, deep_equal}

get-remove_state :
    (k j : Str) (m : States) → get j (remove k m) ≡ (if k == j then none else get j m)
get-remove_state k j m = get-remove k j m

remove-absent : (k : Str) (m : States) → get k m ≡ none → remove k m ≡ m
unfolding get remove
remove-absent k [] e = refl
remove-absent k ((j, v) ∷ m) e = ground (arith, remove-absent k m, e)

length-remove :
    (k v : Str) (m : States) → IsMap m → get k m ≡ some v → length m ≡ suc (length (remove k m))
unfolding get remove
length-remove k v [] i e = absurd (ground (arith, e))
length-remove k v ((j, w) ∷ m) i e =
    ground (arith, length-remove k v m i.1, i.0, e, str_beq_iff j k, remove-absent k m)

-- A key that the first map lacks is not looked up.
same_entries-remove :
    (k : Str) (a b : States)
    → get k a ≡ none
    → same_entries a b ≡ true
    → same_entries a (remove k b) ≡ true
unfolding get same_entries
same_entries-remove k [] b n e = refl
same_entries-remove k ((j, v) ∷ a) b n e = ground (
  arith,
  same_entries-remove k a b,
  n,
  e,
  get-remove_state k j b,
  str_beq_iff j k,
  str_beq_iff k j,
)

has_value-some : (v : Str) (o : Option Str) → has_value v o ≡ true → o ≡ some v
has_value-some v none e = ground (arith, e)
has_value-some v (some w) e = ap some (sym ((str_beq_iff v w).0 e))

-- Two maps of one size, the entries of the first being in the second, hold the same.
pub same_entries-get :
    (a b : States) (k : Str)
    → IsMap a
    → IsMap b
    → length a ≡ length b
    → same_entries a b ≡ true
    → get k a ≡ get k b
unfolding get same_entries
same_entries-get [] [] k i h l e = refl
same_entries-get [] (x ∷ b) k i h l e = absurd (omega (arith, l))
same_entries-get ((j, v) ∷ a) b k i h l e =
    let here : get j b ≡ some v = has_value-some v (get j b) (ground (arith, e)) in
    let rest : same_entries a (remove j b) ≡ true =
      same_entries-remove j a b i.0 (ground (arith, e)) in
    ground (
      arith,
      same_entries-get a (remove j b) k i.1 (remove-IsMap j b h)
          (omega (arith, l, length-remove j v b h here)) rest,
      get-remove_state j k b,
      here,
      str_beq_iff j k,
    )

-- Two maps that `reflect.DeepEqual` finds equal.
pub deep_equal-get :
    (a b : States) (k : Str) → IsMap a → IsMap b → deep_equal a b ≡ true → get k a ≡ get k b
unfolding deep_equal
deep_equal-get a b k i h e = same_entries-get a b k i h (ground (arith, e)) (ground (arith, e))
