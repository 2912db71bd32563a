-- ===== src/GoMap/Laws.antt =====
-- The laws of `get`, `has`, `put` and `remove`, in the form of one equation for each pair.
use mulch.Prelude.{
  ◌≡◌, refl, true, false, none, some, [], ◌∷◌, arith, if◌then◌else◌, Comparable, ◌==◌, inl, inr,
  Bool-cases,
}
use mulch.GoMap.{Map, get, has, put, remove}

pub beq_refl {ℓ} : {K : Type ℓ} ⦃e : Comparable K⦄ (k : K) → (k == k) ≡ true
beq_refl ⦃e⦄ k = (e.equal_iff k k).1 refl

module _ {ℓ κ} {K : Type ℓ} {V : Type κ} ⦃e : Comparable K⦄ where
  pub get-put :
      (k j : K) (v : V) (m : Map K V) → get j (put k v m) ≡ (if k == j then some v else get j m)
  unfolding get put
  get-put k j v [] = refl
  get-put k j v ((i, w) ∷ m) =
      ground (arith, e.equal_iff k j, e.equal_iff i k, e.equal_iff i j, get-put k j v m)

  pub get-remove : (k j : K) (m : Map K V) → get j (remove k m) ≡ (if k == j then none else get j m)
  unfolding get remove
  get-remove k j [] = ground arith
  get-remove k j ((i, w) ∷ m) =
      ground (arith, e.equal_iff k j, e.equal_iff i k, e.equal_iff i j, get-remove k j m)

  pub has-eq-get : (k : K) (m : Map K V) → has k m ≡ elim (get k m) [ none ↦ false | some v ↦ true ]
  unfolding get has
  has-eq-get k [] = refl
  has-eq-get k ((i, w) ∷ m) = ground (arith, has-eq-get k m)

module _ {ℓ κ} {K : Type ℓ} {V : Type κ} ⦃e : Comparable K⦄ where
  pub has-put :
      (k j : K) (v : V) (m : Map K V) → has j (put k v m) ≡ (if k == j then true else has j m)
  unfolding has put
  has-put k j v [] = refl
  has-put k j v ((i, w) ∷ m) =
      ground (arith, e.equal_iff k j, e.equal_iff i k, e.equal_iff i j, has-put k j v m)

  -- What is not there has no value.
  pub has-get : (k : K) (m : Map K V) → has k m ≡ false → get k m ≡ none
  unfolding has get
  has-get k [] h = refl
  has-get k ((i, w) ∷ m) h = ground (arith, has-get k m)

-- A Go map holds a key once.
abbrev pub IsMap {ℓ κ} : {K : Type ℓ} {V : Type κ} ⦃e : Comparable K⦄ → Map K V → Type κ
IsMap [] = Unit
IsMap ((k, v) ∷ m) = (get k m ≡ none) × IsMap m

module _ {ℓ κ} {K : Type ℓ} {V : Type κ} ⦃e : Comparable K⦄ where
  pub put-IsMap : (k : K) (v : V) (m : Map K V) → IsMap m → IsMap (put k v m)
  unfolding get put
  put-IsMap k v [] h = (refl, tt)
  put-IsMap k v ((i, w) ∷ m) h =
      ground (arith, put-IsMap k v m, get-put k i v m, e.equal_iff i k, e.equal_iff k i)

  pub remove-IsMap : (k : K) (m : Map K V) → IsMap m → IsMap (remove k m)
  unfolding get remove
  remove-IsMap k [] h = tt
  remove-IsMap k ((i, w) ∷ m) h =
      ground (arith, remove-IsMap k m, get-remove k i m, e.equal_iff i k, e.equal_iff k i)

-- A predicate at each entry.
abbrev pub Entries {ℓ κ μ} : {K : Type ℓ} {V : Type κ} → (K → V → Type μ) → Map K V → Type μ
Entries P [] = Unit
Entries P ((k, v) ∷ m) = P k v × Entries P m

module _ {ℓ κ μ} {K : Type ℓ} {V : Type κ} ⦃e : Comparable K⦄ (P : K → V → Type μ) where
  pub put-Entries : (k : K) (v : V) (m : Map K V) → P k v → Entries P m → Entries P (put k v m)
  unfolding put
  put-Entries k v [] h i = (h, tt)
  put-Entries k v ((j, w) ∷ m) h i = elim (Bool-cases (j == k)) [
    | inl b ↦ rw b (h, i.1)
    | inr b ↦ rw b (i.0, put-Entries k v m h i.1)
  ]
