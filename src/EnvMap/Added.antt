-- ===== src/EnvMap/Added.antt =====
-- What the steps of `GetEnvMap`, of cmd/mulchd/server/vm.go, add to the variables and keep of them.
use mulch.Prelude.{
  ◌+◌, ◌%◌, ◌≡◌, refl, sym, ◌∙◌, ap, inl, inr, Bool, true, false, some, List, [], ◌∷◌, ◌++◌, arith,
  All, Bool-cases, ◌==◌, if◌then◌else◌,
}
use mulch.GoMap.{Map, get, has, put}
use mulch.GoMap.Laws.{get-put, has-get, Entries}
use mulch.Text.{Str, lit, str_eq, str_beq_iff}
use mulch.VmPort.{VmPort, is_import}
use mulch.Text.Decimal.{itoa}
use mulch.EnvMap.{
  EnvState, port_variable, forward_port, add_import, add_imports, add_value, add_values,
}

-- If there is no conflict at the end, there is none before, and all values are kept.
abbrev pub Keeps : EnvState → EnvState → Type 0
Keeps s s' = s'.1 ≡ [] → (s.1 ≡ []) × ((k v : Str) → get k s.0 ≡ some v → get k s'.0 ≡ some v)

not_nil-snoc : (xs : List Str) (x : Str) → xs ++ (x ∷ []) ≡ [] → ⊥
not_nil-snoc [] x h = ground (arith, h)
not_nil-snoc (y ∷ xs) x h = ground (arith, h)

Keeps-trans : (a b c : EnvState) → Keeps a b → Keeps b c → Keeps a c
Keeps-trans a b c h i e =
    let later = i e in
    let earlier = h later.0 in (earlier.0, λ k v g. later.1 k v (earlier.1 k v g))

pub get-put_str :
    (k j v : Str) (m : Map Str Str) → get j (put k v m) ≡ (if k == j then some v else get j m)
get-put_str k j v m = get-put k j v m

-- A new name changes no value.
put-new :
    (key val : Str) (m : Map Str Str)
    → has key m ≡ false
    → (k v : Str) → get k m ≡ some v
    → get k (put key val m) ≡ some v
put-new key val m h k v e =
    ground (arith, e, get-put_str key k val m, has-get key m h, str_beq_iff key k)

add_value-Keeps : (key val : Str) (s : EnvState) → Keeps s (add_value key val s)
unfolding add_value
add_value-Keeps key val (res, conflict) e = elim (Bool-cases (has key res)) [
  | inl b ↦ absurd (not_nil-snoc conflict key (ground (arith, e, b)))
  | inr b ↦ (ground (arith, e, b), λ k v g. rw b (put-new key val res b k v g))
]

pub add_values-Keeps : (m : Map Str Str) (s : EnvState) → Keeps s (add_values m s)
unfolding add_values
add_values-Keeps [] s e = (e, λ k v g. g)
add_values-Keeps ((key, val) ∷ m) s e =
    Keeps-trans s (add_value key val s) (add_values m (add_value key val s))
      (add_value-Keeps key val s) (add_values-Keeps m (add_value key val s)) e

add_value-new :
    (key val : Str) (s : EnvState)
    → (add_value key val s).1 ≡ []
    → get key (add_value key val s).0 ≡ some val
unfolding add_value
add_value-new key val (res, conflict) e = elim (Bool-cases (has key res)) [
  | inl b ↦ absurd (not_nil-snoc conflict key (ground (arith, e, b)))
  | inr b ↦ ground (arith, b, get-put_str key key val res, str_beq_iff key key)
]

-- Without a conflict, every value that is added is there at the end.
pub add_values-Entries :
    (m : Map Str Str) (s : EnvState)
    → (add_values m s).1 ≡ []
    → Entries (λ k v. get k (add_values m s).0 ≡ some v) m
unfolding add_values
add_values-Entries [] s e = tt
add_values-Entries ((key, val) ∷ m) s e =
    let next : EnvState = add_value key val s in
    let later = add_values-Keeps m next e in
    (later.1 key val (add_value-new key val s later.0), add_values-Entries m next e)

add_import-Keeps : (p : VmPort) (s : EnvState) → Keeps s (add_import p s)
unfolding add_import
add_import-Keeps p (res, conflict) e = elim (Bool-cases (has (port_variable p) res)) [
  | inl b ↦ absurd (not_nil-snoc conflict (port_variable p) (ground (arith, e, b)))
  | inr b ↦
      (ground (arith, e, b), λ k v g. rw b (put-new (port_variable p) (forward_port p) res b k v g))
]

add_import-new :
    (p : VmPort) (s : EnvState)
    → (add_import p s).1 ≡ []
    → get (port_variable p) (add_import p s).0 ≡ some (forward_port p)
unfolding add_import
add_import-new p (res, conflict) e = elim (Bool-cases (has (port_variable p) res)) [
  | inl b ↦ absurd (not_nil-snoc conflict (port_variable p) (ground (arith, e, b)))
  | inr b ↦ ground (
    arith,
    b,
    get-put_str (port_variable p) (port_variable p) (forward_port p) res,
    str_beq_iff (port_variable p) (port_variable p),
  )
]

import_step-Keeps :
    (b : Bool) (p : VmPort) (s : EnvState) → Keeps s (if b then add_import p s else s)
import_step-Keeps true p s e = add_import-Keeps p s e
import_step-Keeps false p s e = (e, λ k v g. g)

pub add_imports-Keeps : (ps : List VmPort) (s : EnvState) → Keeps s (add_imports ps s)
unfolding add_imports
add_imports-Keeps [] s e = (e, λ k v g. g)
add_imports-Keeps (p ∷ ps) s e =
    let next : EnvState = if is_import p.direction then add_import p s else s in
    Keeps-trans s next (add_imports ps next) (import_step-Keeps (is_import p.direction) p s)
      (add_imports-Keeps ps next) e

-- The variable of an imported port, such as `_5432_TCP`, holds the port on which it is forwarded, which
-- is 9001 for the first one.
abbrev pub Forwarded : Map Str Str → VmPort → Type 0
Forwarded res p =
    is_import p.direction ≡ true
    → get (lit "_" ++ (itoa p.port ++ lit "_TCP")) res ≡ some (itoa ((9001 + p.index) % 65536))

forward_port_lem : (p : VmPort) → forward_port p ≡ itoa ((9001 + p.index) % 65536)
unfolding forward_port
forward_port_lem p = refl

port_variable_lem : (p : VmPort) → port_variable p ≡ lit "_" ++ (itoa p.port ++ lit "_TCP")
unfolding port_variable
port_variable_lem p = refl

add_import-Forwarded :
    (p : VmPort) (s : EnvState)
    → (add_import p s).1 ≡ []
    → get (lit "_" ++ (itoa p.port ++ lit "_TCP")) (add_import p s).0
      ≡ some (itoa ((9001 + p.index) % 65536))
add_import-Forwarded p s e =
    ap (λ k. get k (add_import p s).0) (sym (port_variable_lem p))
    ∙ add_import-new p s e
    ∙ ap some (forward_port_lem p)

pub add_imports-Forwarded :
    (ps : List VmPort) (s : EnvState)
    → (add_imports ps s).1 ≡ []
    → All (Forwarded (add_imports ps s).0) ps
unfolding add_imports
add_imports-Forwarded [] s e = tt
add_imports-Forwarded (p ∷ ps) s e =
    let next : EnvState = if is_import p.direction then add_import p s else s in
    let later = add_imports-Keeps ps next e in
    let same : is_import p.direction ≡ true → next ≡ add_import p s = λ i. rw i refl in
    (
      λ i. later.1 _ _ (
          ap (λ n. get (lit "_" ++ (itoa p.port ++ lit "_TCP")) n.0) (same i)
          ∙ add_import-Forwarded p s (ap (λ n. n.1) (sym (same i)) ∙ later.0)),
      add_imports-Forwarded ps next e,
    )
