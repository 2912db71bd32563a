-- ===== src/EnvMap/Clean.antt =====
-- The steps of `GetEnvMap`, when the names that they add are new.
use mulch.Prelude.{
  ◌≡◌, refl, sym, ◌∙◌, ap, subst, inl, inr, Bool, true, false, none, List, [], ◌∷◌, arith, All,
  Bool-cases, ◌==◌, if◌then◌else◌,
}
use mulch.GoMap.{Map, get, has, put}
use mulch.GoMap.Laws.{IsMap, has-put, Entries}
use mulch.Text.{Str, str_eq, str_beq, str_beq_iff}
use mulch.VmPort.{VmPort, is_import}
use mulch.VmPort.Comment.{starts_with_char}
use mulch.Config.Names.{NoRepeat}
use mulch.EnvMap.{
  EnvState, port_variable, forward_port, add_import, add_imports, add_value, add_values,
}

abbrev pub import_step : List Str → Bool → Str → List Str
import_step names b n = if b then n ∷ names else names

-- The variables of the imported ports
abbrev pub import_variables : List VmPort → List Str
import_variables [] = []
import_variables (p ∷ ps) =
    import_step (import_variables ps) (is_import p.direction) (port_variable p)

-- A name that does not start with `_`.
abbrev pub IsPlain : Str → Type 0
IsPlain k = starts_with_char b'_' k ≡ false

-- What a step leaves: no conflict, and no plain name that was not there.
pub record Clean (s s' : EnvState) : Type 0 where
  pub no_conflict : s'.1 ≡ []
  pub plain : (k : Str) → IsPlain k → has k s.0 ≡ false → has k s'.0 ≡ false

pub has-put_str :
    (k j v : Str) (m : Map Str Str) → has j (put k v m) ≡ (if k == j then true else has j m)
has-put_str k j v m = has-put k j v m

has-port_variable :
    (k : Str) (p : VmPort) (v : Str) (m : Map Str Str)
    → IsPlain k
    → has k m ≡ false
    → has k (put (port_variable p) v m) ≡ false
unfolding port_variable starts_with_char str_beq
has-port_variable [] p v m h i = ground (arith, i, has-put_str (port_variable p) [] v m)
has-port_variable (c ∷ k) p v m h i =
    ground (arith, h, i, has-put_str (port_variable p) (c ∷ k) v m)

All-has-put :
    (n v : Str) (res : Map Str Str) (names : List Str)
    → All (λ m. has m res ≡ false) names
    → All (λ m. (n == m) ≡ false) names
    → All (λ m. has m (put n v res) ≡ false) names
All-has-put n v res [] h k = tt
All-has-put n v res (m ∷ names) h k =
    (ground (arith, h.0, k.0, has-put_str n m v res), All-has-put n v res names h.1 k.1)

add_import-new :
    (p : VmPort) (res : Map Str Str)
    → has (port_variable p) res ≡ false
    → add_import p (res, []) ≡ (put (port_variable p) (forward_port p) res, [])
unfolding add_import
add_import-new p res h = rw h refl

pub add_imports-Clean :
    (ps : List VmPort) (res : Map Str Str)
    → All (λ n. has n res ≡ false) (import_variables ps)
    → NoRepeat (import_variables ps)
    → Clean (res, []) (add_imports ps (res, []))
unfolding add_imports
add_imports-Clean [] res h d = record { no_conflict = refl; plain = λ k p e. e }
add_imports-Clean (p ∷ ps) res h d = elim (Bool-cases (is_import p.direction)) [
  | inr b ↦
      let names : import_variables (p ∷ ps) ≡ import_variables ps =
        ap (λ i. import_step (import_variables ps) i (port_variable p)) b in
      let rest =
        add_imports-Clean ps res (subst (All (λ n. has n res ≡ false)) names h)
          (subst NoRepeat names d) in
      subst
        (λ i. Clean (res, []) (add_imports ps (if i then add_import p (res, []) else (res, []))))
        (sym b) rest
  | inl b ↦
      let n = port_variable p in
      let names : import_variables (p ∷ ps) ≡ n ∷ import_variables ps =
        ap (λ i. import_step (import_variables ps) i n) b in
      let fresh = subst (All (λ m. has m res ≡ false)) names h in
      let differ = subst NoRepeat names d in
      let res' : Map Str Str = put n (forward_port p) res in
      let rest =
        add_imports-Clean ps res'
          (All-has-put n (forward_port p) res (import_variables ps) fresh.1 differ.0) differ.1 in
      let rest' : Clean (res, []) (add_imports ps (res', [])) = record {
        no_conflict = rest.no_conflict;
        plain = λ k q e. rest.plain k q (has-port_variable k p (forward_port p) res q e);
      } in
      subst
        (λ i. Clean (res, []) (add_imports ps (if i then add_import p (res, []) else (res, []))))
        (sym b)
        (subst (λ s. Clean (res, []) (add_imports ps s)) (sym (add_import-new p res fresh.0)) rest')
]

add_value-new :
    (key val : Str) (res : Map Str Str)
    → has key res ≡ false
    → add_value key val (res, []) ≡ (put key val res, [])
unfolding add_value
add_value-new key val res h = rw h refl

get-has : (k : Str) (m : Map Str Str) → get k m ≡ none → has k m ≡ false
unfolding get has
get-has k [] h = refl
get-has k ((j, v) ∷ m) h = ground (arith, h, get-has k m)

Entries-has-put :
    (key val : Str) (res m : Map Str Str)
    → has key m ≡ false
    → Entries (λ k v. has k res ≡ false) m
    → Entries (λ k v. has k (put key val res) ≡ false) m
unfolding has
Entries-has-put key val res [] n h = tt
Entries-has-put key val res ((k, v) ∷ m) n h = (
  ground (arith, n, h.0, has-put_str key k val res, str_beq_iff key k, str_beq_iff k key),
  Entries-has-put key val res m (ground (arith, n)) h.1,
)

-- Names that are not there yet, each once, are added without a conflict, and no others.
pub add_values-Clean :
    (m res : Map Str Str)
    → IsMap m
    → Entries (λ k v. has k res ≡ false) m
    → ((add_values m (res, [])).1 ≡ [])
      × ((k : Str) → has k m ≡ false → has k res ≡ false → has k (add_values m (res, [])).0 ≡ false)
unfolding add_values has
add_values-Clean [] res i h = (refl, λ k n e. e)
add_values-Clean ((key, val) ∷ m) res i h =
    let rest =
      add_values-Clean m (put key val res) i.1
        (Entries-has-put key val res m (get-has key m i.0) h.1) in
    let same = ap (add_values m) (sym (add_value-new key val res h.0)) in
    (
      ap (λ s. s.1) (sym same) ∙ rest.0,
      λ k n e.
          ap (λ s. has k s.0) (sym same)
          ∙ rest.1 k (ground (arith, n)) (ground (arith, n, e, has-put_str key k val res)),
    )
