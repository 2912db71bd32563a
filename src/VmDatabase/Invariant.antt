-- ===== src/VmDatabase/Invariant.antt =====
-- The consistency of the database: ids, names, and at most one active entry for a name.
use mulch.Prelude.{
  ℕ, ◌+◌, ◌≤◌, ◌≡◌, refl, ap, subst, sym, ◌∙◌, ◌&&◌, Option, none, [], ◌∷◌, arith, if◌then◌else◌,
  ◌==◌,
}
use mulch.GoMap
use mulch.GoMap.{Map}
use mulch.GoMap.Laws.{IsMap}
use mulch.Text.{Str, str_eq, str_beq_iff}
use mulch.VmName.{id, IsVmName}
use mulch.Vm.{VmEntry}
use mulch.VmDatabase.Update.{deactivate, set_active}

abbrev pub Db : Type 0
Db = Map Str VmEntry

-- 1 for an active entry of the name.
abbrev pub one_active : Str → VmEntry → ℕ
one_active n e = if e.active && e.name.name == n then 1 else 0

unfoldable pub active_count : Str → Db → ℕ
active_count n [] = 0
active_count n ((k, e) ∷ m) = one_active n e + active_count n m

-- Every entry stands under the id of its name, a name that `ParseVMName` can give.
abbrev pub IsKeyed : Db → Type 0
IsKeyed [] = Unit
IsKeyed ((k, e) ∷ m) = (id e.name ≡ k) × IsVmName e.name × IsKeyed m

-- "Only one entry can be active per name"
pub record IsConsistent (m : Db) : Type 0 where
  pub is_map : IsMap m
  pub keyed : IsKeyed m
  pub single : (n : Str) → active_count n m ≤ 1

-- The same keys with the same names, in the same order.
abbrev pub SameNames : Db → Db → Type 0
SameNames [] [] = Unit
SameNames ((k, e) ∷ m) ((j, f) ∷ l) = (k ≡ j) × (e.name ≡ f.name) × SameNames m l
SameNames _ _ = ⊥

pub SameNames-get :
    (m l : Db) (k : Str) → SameNames m l → GoMap.get k m ≡ none → GoMap.get k l ≡ none
unfolding GoMap.get
SameNames-get [] [] k s h = refl
SameNames-get ((i, e) ∷ m) ((j, f) ∷ l) k s h =
    ground (arith, SameNames-get m l k, str_beq_iff i k, str_beq_iff j k)
SameNames-get [] (q ∷ l) k s h = absurd s
SameNames-get (p ∷ m) [] k s h = absurd s

pub SameNames-IsMap : (m l : Db) → SameNames m l → IsMap m → IsMap l
SameNames-IsMap [] [] s h = tt
SameNames-IsMap ((i, e) ∷ m) ((j, f) ∷ l) (p, q, s) (h, hm) =
    (subst (λ x. GoMap.get x l ≡ none) p (SameNames-get m l i s h), SameNames-IsMap m l s hm)
SameNames-IsMap [] (q ∷ l) s h = absurd s
SameNames-IsMap (p ∷ m) [] s h = absurd s

pub SameNames-IsKeyed : (m l : Db) → SameNames m l → IsKeyed m → IsKeyed l
SameNames-IsKeyed [] [] s h = tt
SameNames-IsKeyed ((i, e) ∷ m) ((j, f) ∷ l) (p, q, s) (h, v, hm) =
    (ap id (sym q) ∙ h ∙ p, subst IsVmName q v, SameNames-IsKeyed m l s hm)
SameNames-IsKeyed [] (q ∷ l) s h = absurd s
SameNames-IsKeyed (p ∷ m) [] s h = absurd s

pub SameNames-deactivate : (n : Str) (m : Db) → SameNames m (deactivate n m)
unfolding deactivate
SameNames-deactivate n [] = tt
SameNames-deactivate n ((k, e) ∷ m) = (refl, ground arith, SameNames-deactivate n m)

pub SameNames-set_active : (n : Str) (r : Option ℕ) (m : Db) → SameNames m (set_active n r m)
unfolding set_active
SameNames-set_active n r [] = tt
SameNames-set_active n r ((k, e) ∷ m) = (refl, ground arith, SameNames-set_active n r m)

pub active_count-deactivate :
    (n j : Str) (m : Db)
    → active_count j (deactivate n m) ≡ (if n == j then 0 else active_count j m)
unfolding active_count deactivate
active_count-deactivate n j [] = ground arith
active_count-deactivate n j ((k, e) ∷ m) = ground (
  arith,
  active_count-deactivate n j m,
  str_beq_iff n j,
  str_beq_iff e.name.name n,
  str_beq_iff e.name.name j,
)

pub active_count-put :
    (k j : Str) (e : VmEntry) (m : Db)
    → GoMap.get k m ≡ none
    → active_count j (GoMap.put k e m) ≡ active_count j m + one_active j e
unfolding active_count GoMap.get GoMap.put
active_count-put k j e [] h = ground arith
active_count-put k j e ((i, f) ∷ m) h = ground (arith, active_count-put k j e m)

pub active_count-remove :
    (k j : Str) (m : Db) → active_count j (GoMap.remove k m) ≤ active_count j m
unfolding active_count GoMap.remove
active_count-remove k j [] = omega arith
active_count-remove k j ((i, f) ∷ m) = ground (arith, active_count-remove k j m)
