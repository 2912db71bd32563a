-- ===== src/EnvMap/Total.antt =====
-- When `GetEnvMap` returns no error: the names of the three sources differ.
use mulch.Prelude.{
  ℕ, ◌≡◌, refl, sym, ◌∙◌, ap, subst, inl, inr, true, false, none, List, [], ◌∷◌, ◌++◌, map, eqb,
  ◌≤◌, arith, all, All, All-map, Bool-cases, ◌==◌,
}
use mulch.GoMap.{Map, has, put}
use mulch.GoMap.Laws.{IsMap, put-IsMap, Entries, put-Entries}
use mulch.Text.{Str, lit, str_eq, str_beq}
use mulch.Text.Words.{is_digit, is_nil}
use mulch.Text.Decimal.{itoa, itoa-digits}
use mulch.VmName.{VmName}
use mulch.VmPort.{VmPort, is_import}
use mulch.VmPort.Comment.{starts_with_char}
use mulch.Vm.{Vm}
use mulch.Secrets.{Secret, SecretDatabase}
use mulch.Config.{Outside}
use mulch.Config.Env.{path_base, put_all}
use mulch.Config.Names.{NoRepeat, IsSecret}
use mulch.Config.Valid.{IsVmConfig}
use mulch.EnvMap.{
  EnvState, SecretsMap, Server, reserved, port_variable, add_imports, add_secret, secrets_loop,
  get_secrets_map, add_values, conflict_error, with_secrets, plain_variables, get_env_map,
}
use mulch.EnvMap.Found.{get_secrets_map-IsFound}
use mulch.EnvMap.Clean.{
  import_step, import_variables, IsPlain, has-put_str, add_imports-Clean, add_values-Clean,
}

put_all-Lacks :
    (k : Str) (m env : Map Str Str)
    → Entries (λ j v. (j == k) ≡ false) m
    → has k env ≡ false
    → has k (put_all m env) ≡ false
unfolding put_all
put_all-Lacks k [] env h e = e
put_all-Lacks k ((j, v) ∷ m) env h e =
    put_all-Lacks k m (put j v env) h.1 (ground (arith, h.0, e, has-put_str j k v env))

differ : (l c : ℕ) (w s : Str) → eqb l c ≡ false → ((b'_' ∷ l ∷ w) == (b'_' ∷ c ∷ s)) ≡ false
unfolding str_beq
differ l c w s h = ground (arith, h)

-- No variable of every machine is that of a port: its second character is no digit.
has-reserved :
    (server : Server) (vm : Vm) (name : VmName) (c : ℕ) (s : Str)
    → is_digit c ≡ true
    → has (b'_' ∷ c ∷ s) (put_all (reserved server vm name) []) ≡ false
unfolding reserved has
has-reserved server vm name c s h =
    let other : (l : ℕ) → 58 ≤ l → (w : Str) → ((b'_' ∷ l ∷ w) == (b'_' ∷ c ∷ s)) ≡ false =
      λ l big w. differ l c w s (ground (arith, h, big)) in
    put_all-Lacks (b'_' ∷ c ∷ s) (reserved server vm name) []
      (
        other b'M' (omega arith) _,
        (
          other b'B' (omega arith) _,
          (
            other b'A' (omega arith) _,
            (
              other b'V' (omega arith) _,
              (
                other b'V' (omega arith) _,
                (
                  other b'K' (omega arith) _,
                  (
                    other b'M' (omega arith) _,
                    (
                      other b'V' (omega arith) _,
                      (
                        other b'D' (omega arith) _,
                        (
                          other b'D' (omega arith) _,
                          (
                            other b'M' (omega arith) _,
                            (
                              other b'P' (omega arith) _,
                              (
                                other b'P' (omega arith) _,
                                (
                                  other b'P' (omega arith) _,
                                  (other b'P' (omega arith) _, (other b'P' (omega arith) _, tt)),
                                ),
                              ),
                            ),
                          ),
                        ),
                      ),
                    ),
                  ),
                ),
              ),
            ),
          ),
        ),
      )
      refl

digit_variable :
    (s : Str) (server : Server) (vm : Vm) (name : VmName)
    → all is_digit s ≡ true
    → is_nil s ≡ false
    → has (b'_' ∷ (s ++ lit "_TCP")) (put_all (reserved server vm name) []) ≡ false
digit_variable [] server vm name d n = absurd (ground (arith, n))
digit_variable (c ∷ s) server vm name d n =
    has-reserved server vm name c (s ++ lit "_TCP") (ground (arith, d))

import_variables-new :
    (ps : List VmPort) (server : Server) (vm : Vm) (name : VmName)
    → All (λ n. has n (put_all (reserved server vm name) []) ≡ false) (import_variables ps)
unfolding port_variable
import_variables-new [] server vm name = tt
import_variables-new (p ∷ ps) server vm name =
    let rest = import_variables-new ps server vm name in
    let d = itoa-digits p.port in
    let new : List Str → Type 0 = All (λ n. has n (put_all (reserved server vm name) []) ≡ false) in
    elim (Bool-cases (is_import p.direction)) [
      | inl b ↦
          subst (λ i. new (import_step (import_variables ps) i (port_variable p))) (sym b)
            (digit_variable (itoa p.port) server vm name d.0 d.1, rest)
      | inr b ↦
          subst (λ i. new (import_step (import_variables ps) i (port_variable p))) (sym b) rest
    ]

plain_differ : (w k : Str) → IsPlain k → ((b'_' ∷ w) == k) ≡ false
unfolding str_beq starts_with_char
plain_differ w [] h = refl
plain_differ w (c ∷ s) h = ground (arith, h)

reserved-plain :
    (server : Server) (vm : Vm) (name : VmName) (k : Str)
    → IsPlain k
    → has k (put_all (reserved server vm name) []) ≡ false
unfolding reserved has
reserved-plain server vm name k h =
    let other : (w : Str) → ((b'_' ∷ w) == k) ≡ false = λ w. plain_differ w k h in
    put_all-Lacks k (reserved server vm name) []
      (
        other _,
        (
          other _,
          (
            other _,
            (
              other _,
              (
                other _,
                (
                  other _,
                  (
                    other _,
                    (
                      other _,
                      (
                        other _,
                        (
                          other _,
                          (other _, (other _, (other _, (other _, (other _, (other _, tt)))))),
                        ),
                      ),
                    ),
                  ),
                ),
              ),
            ),
          ),
        ),
      )
      refl

-- The names of the secrets found: each once, plain and not among the variables of the configuration.
abbrev NewNames : Map Str Str → Map Str Str → Type 0
NewNames env m = IsMap m × Entries (λ k v. IsPlain k × (has k env ≡ false)) m

secrets_loop-NewNames :
    (sdb : SecretDatabase) (env : Map Str Str) (paths : List Str) (found : SecretsMap)
    → All (IsSecret sdb env) paths
    → All IsPlain (map path_base paths)
    → NewNames env found.0
    → NewNames env (secrets_loop sdb paths found).0
unfolding secrets_loop add_secret
secrets_loop-NewNames sdb env [] found k p i = i
secrets_loop-NewNames sdb env (path ∷ paths) (res, missing) k p i =
    let s : Secret = k.0.1.0 in
    let next : NewNames env (put (path_base path) s.value res) = (
      put-IsMap (path_base path) s.value res i.0,
      put-Entries (λ n v. IsPlain n × (has n env ≡ false)) (path_base path) s.value res (p.0, k.0.0)
          i.1,
    ) in
    let known = ap (λ o. add_secret path o (res, missing)) (sym k.0.1.1) in
    subst (λ f. NewNames env (secrets_loop sdb paths f).0) known
      (secrets_loop-NewNames sdb env paths (put (path_base path) s.value res, missing) k.1 p.1 next)

plain_new :
    (env res m : Map Str Str)
    → ((k : Str) → IsPlain k → has k env ≡ false → has k res ≡ false)
    → Entries (λ k v. IsPlain k × (has k env ≡ false)) m
    → Entries (λ k v. has k res ≡ false) m
plain_new env res [] f h = tt
plain_new env res ((k, v) ∷ m) f h = (f k h.0.0 h.0.1, plain_new env res m f h.1)

plain_all :
    (res m : Map Str Str)
    → ((k : Str) → IsPlain k → has k res ≡ false)
    → Entries (λ k v. IsPlain k) m
    → Entries (λ k v. has k res ≡ false) m
plain_all res [] f h = tt
plain_all res ((k, v) ∷ m) f h = (f k h.0, plain_all res m f h.1)

with_secrets-Clean :
    (found : SecretsMap) (s : EnvState)
    → found.1 ≡ []
    → (add_values found.0 s).1 ≡ []
    → (with_secrets found s).1 ≡ none
unfolding with_secrets conflict_error
with_secrets-Clean (secrets, path ∷ paths) s h e = absurd (ground (arith, h))
with_secrets-Clean (secrets, []) s h e =
    ap (λ c. (conflict_error ((add_values secrets s).0, c)).1) e

-- For a configuration that the reader accepts, if the names of its environment and of its secrets do not start with an underscore, and no port is imported twice, then `GetEnvMap`, with the secrets that the reader saw, returns no error, whatever the variables of the server.
pub get_env_map-accepted :
    (out : Outside) (server : Server) (vm : Vm) (name : VmName)
    → IsVmConfig out vm.config
    → Entries (λ k v. IsPlain k) vm.config.env
    → All IsPlain (map path_base vm.config.secrets)
    → NoRepeat (import_variables vm.config.ports)
    → (get_env_map server out.secrets vm name).1 ≡ none
unfolding get_env_map plain_variables get_secrets_map
get_env_map-accepted out server vm name valid plain_env plain_secrets imports =
    let c = vm.config in
    let res0 : Map Str Str = put_all (reserved server vm name) [] in
    let s1 : EnvState = add_imports c.ports (res0, []) in
    let clean =
      add_imports-Clean c.ports res0 (import_variables-new c.ports server vm name) imports in
    let plain1 : (k : Str) → IsPlain k → has k s1.0 ≡ false =
      λ k p. clean.plain k p (reserved-plain server vm name k p) in
    let s1' : EnvState = (s1.0, []) in
    let env = add_values-Clean c.env s1.0 valid.env.0 (plain_all s1.0 c.env plain1 plain_env) in
    let s2' : EnvState = add_values c.env s1' in
    let found = get_secrets_map out.secrets c.secrets in
    let names =
      secrets_loop-NewNames out.secrets c.env c.secrets ([], []) valid.secrets plain_secrets
        (tt, tt) in
    let fresh = plain_new c.env s2'.0 found.0 (λ k p n. env.1 k n (plain1 k p)) names.1 in
    let last = add_values-Clean found.0 s2'.0 names.0 fresh in
    let known =
      get_secrets_map-IsFound out.secrets c.secrets
        (All-map _ _ (λ p h. h.1) c.secrets valid.secrets) valid.secret_names in
    let same1 : s1' ≡ s1 = ap (λ l. (s1.0, l)) (sym clean.no_conflict) in
    let same2 : (s2'.0, []) ≡ add_values c.env s1 =
      ap (λ l. (s2'.0, l)) (sym env.0) ∙ ap (add_values c.env) same1 in
    with_secrets-Clean found (add_values c.env s1) known.0
      (ap (λ s. (add_values found.0 s).1) (sym same2) ∙ last.0)
