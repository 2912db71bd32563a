-- ===== src/Config/Names.antt =====
-- Names that occur once: the domains, the secrets, the environment and the actions of a configuration.
use mulch.Prelude.{
  ◌≡◌, refl, subst, ◌⊎◌, inl, inr, Bool, true, false, Option, none, some, List, [], ◌∷◌, map, arith,
  All, Bool-cases, ◌==◌, ok,
}
use mulch.GoMap.{Map, has, put}
use mulch.GoMap.Laws.{IsMap, put-IsMap, has-put}
use mulch.Text.{Str, str_eq, str_beq_iff}
use mulch.Text.Words.{is_nil, is_valid_name}
use mulch.Domain.{Domain}
use mulch.Secrets
use mulch.Secrets.{Secret, SecretDatabase}
use mulch.VmPort.Bounds.{bind-ok, ok-injective}
use mulch.Config.{ConfigError, Outside, TomlVmConfig}
use mulch.Config.Domains.{check_duplicates, domain_names}
use mulch.Config.Env.{
  path_base, put_all, raw_values, raw_env, env_line, env_lines, env_of, secret_found, check_secret,
  check_secrets,
}

-- No name is the same as an earlier one.
abbrev pub NoRepeat : List Str → Type 0
NoRepeat [] = Unit
NoRepeat (x ∷ xs) = All (λ y. (x == y) ≡ false) xs × NoRepeat xs

All-has-put :
    (k : Str) (seen : Map Str Bool) (names : List Str)
    → All (λ n. has n (put k true seen) ≡ false) names
    → All (λ n. (k == n) ≡ false) names × All (λ n. has n seen ≡ false) names
All-has-put k seen [] h = (tt, tt)
All-has-put k seen (n ∷ names) h =
    let rest = All-has-put k seen names h.1 in
    let here = has-put k n true seen in
    ((ground (arith, h.0, here), rest.0), (ground (arith, h.0, here), rest.1))

-- The loop over the domains ends well only if their names differ, also from the ones already seen.
pub check_duplicates-NoRepeat :
    (ds : List Domain) (seen : Map Str Bool)
    → check_duplicates ds seen ≡ ok tt
    → All (λ n. has n seen ≡ false) (domain_names ds) × NoRepeat (domain_names ds)
unfolding check_duplicates
check_duplicates-NoRepeat [] seen h = (tt, tt)
check_duplicates-NoRepeat (d ∷ ds) seen h = elim (Bool-cases (has d.name seen)) [
  | inl e ↦ absurd (ground (arith, h, e))
  | inr e ↦
      let rest = check_duplicates-NoRepeat ds (put d.name true seen) (ground (arith, h, e)) in
      let split = All-has-put d.name seen (domain_names ds) rest.0 in
      ((e, split.1), (split.0, rest.1))
]

-- A secret that is known, and no variable of the environment has its name.
abbrev pub IsSecret : SecretDatabase → Map Str Str → Str → Type 0
IsSecret sdb env key_path =
    (has (path_base key_path) env ≡ false) × ((s : Secret) × (Secrets.get key_path sdb ≡ some s))

secret_found-ok : (o : Option Secret) → secret_found o ≡ ok tt → (s : Secret) × (o ≡ some s)
unfolding secret_found
secret_found-ok none h = absurd (ground (arith, h))
secret_found-ok (some s) h = (s, refl)

check_secret-ok :
    (sdb : SecretDatabase) (env : Map Str Str) (secrets : Map Str Bool) (key_path : Str)
    → check_secret sdb env secrets key_path ≡ ok tt
    → (has (path_base key_path) secrets ≡ false) × IsSecret sdb env key_path
unfolding check_secret
check_secret-ok sdb env secrets key_path h = elim (Bool-cases (has (path_base key_path) secrets)) [
  | inl e ↦ absurd (ground (arith, h, e))
  | inr e ↦ elim (Bool-cases (has (path_base key_path) env)) [
    | inl e2 ↦ absurd (ground (arith, h, e, e2))
    | inr e2 ↦ (e, (e2, secret_found-ok (Secrets.get key_path sdb) (ground (arith, h, e, e2))))
  ]
]

pub check_secrets-ok :
    (sdb : SecretDatabase) (env : Map Str Str) (paths : List Str) (secrets : Map Str Bool)
    → check_secrets sdb env paths secrets ≡ ok tt
    → All (λ n. has n secrets ≡ false) (map path_base paths)
      × NoRepeat (map path_base paths)
      × All (IsSecret sdb env) paths
unfolding check_secrets
check_secrets-ok sdb env [] secrets h = (tt, tt, tt)
check_secrets-ok sdb env (p ∷ paths) secrets h =
    let first = bind-ok (check_secret sdb env secrets p) _ tt h in
    let here = check_secret-ok sdb env secrets p first.1 in
    let rest = check_secrets-ok sdb env paths (put (path_base p) true secrets) first.2 in
    let split = All-has-put (path_base p) secrets (map path_base paths) rest.0 in
    ((here.0, split.1), (split.0, rest.1), (here.1, rest.2))

-- A name that the text gives.
abbrev pub IsGiven : Outside → Str → Str → Type 0
IsGiven out text k = (m : Map Str Str) × (out.unmarshal text ≡ some m) × (has k m ≡ true)

-- A name that the `env_raw` of a file gives.
abbrev pub IsRaw : Outside → Str → Str → Type 0
IsRaw out file k = (t : TomlVmConfig) × (out.decode file ≡ some (t, [])) × IsGiven out t.env_raw k

put_all-IsMap : (m env : Map Str Str) → IsMap env → IsMap (put_all m env)
unfolding put_all
put_all-IsMap [] env h = h
put_all-IsMap ((k, v) ∷ m) env h = put_all-IsMap m (put k v env) (put-IsMap k v env h)

has-put_all :
    (k : Str) (m env : Map Str Str)
    → has k (put_all m env) ≡ true
    → (has k env ≡ true) ⊎ (has k m ≡ true)
unfolding put_all has
has-put_all k [] env h = inl h
has-put_all k ((j, v) ∷ m) env h = elim (has-put_all k m (put j v env) h) [
  | inl e ↦ ground (arith, e, has-put j k v env)
  | inr e ↦ ground (arith, e)
]

abbrev AllGiven : Outside → Str → Map Str Str → Type 0
AllGiven out text env = IsMap env × ((k : Str) → has k env ≡ true → IsGiven out text k)

nil-AllGiven : (out : Outside) (text : Str) → AllGiven out text []
unfolding has
nil-AllGiven out text = (tt, λ k h. absurd (ground (arith, h)))

put_all-AllGiven :
    (out : Outside) (text : Str) (m : Map Str Str)
    → out.unmarshal text ≡ some m
    → AllGiven out text (put_all m [])
unfolding has
put_all-AllGiven out text m e = (
  put_all-IsMap m [] tt,
  λ k h. elim (has-put_all k m [] h) [ inl z ↦ absurd (ground (arith, z)) | inr z ↦ (m, e, z) ],
)

raw_values-ok :
    (out : Outside) (text : Str) (env : Map Str Str) (o : Option (Map Str Str))
    → out.unmarshal text ≡ o
    → raw_values o ≡ ok env
    → AllGiven out text env
unfolding raw_values
raw_values-ok out text env none e h = absurd (ground (arith, h))
raw_values-ok out text env (some m) e h =
    subst (AllGiven out text) (ok-injective {E = ConfigError} (put_all m []) env h)
      (put_all-AllGiven out text m e)

raw_env-ok :
    (out : Outside) (text : Str) (env : Map Str Str)
    → raw_env out text ≡ ok env
    → AllGiven out text env
unfolding raw_env
raw_env-ok out text env h = elim (Bool-cases (is_nil text)) [
  | inl e ↦
      subst (AllGiven out text) (ok-injective {E = ConfigError} [] env (ground (arith, h, e)))
        (nil-AllGiven out text)
  | inr e ↦ raw_values-ok out text env (out.unmarshal text) refl (ground (arith, h, e))
]

-- Every name is one of the earlier map's, or a valid name.
abbrev Extends : Map Str Str → Map Str Str → Type 0
Extends env env' =
    IsMap env' × ((k : Str) → has k env' ≡ true → (has k env ≡ true) ⊎ (is_valid_name k ≡ true))

put-Extends :
    (key val : Str) (env : Map Str Str)
    → is_valid_name key ≡ true
    → IsMap env
    → Extends env (put key val env)
put-Extends key val env v i =
    (put-IsMap key val env i, λ k h. ground (arith, h, v, has-put key k val env, str_beq_iff key k))

env_line-ok :
    (line : List Str) (env env' : Map Str Str)
    → env_line line env ≡ ok env'
    → IsMap env
    → Extends env env'
unfolding env_line
env_line-ok [] env env' h i = absurd (ground (arith, h))
env_line-ok (key ∷ []) env env' h i = absurd (ground (arith, h))
env_line-ok (key ∷ val ∷ x ∷ xs) env env' h i = absurd (ground (arith, h))
env_line-ok (key ∷ val ∷ []) env env' h i = elim (Bool-cases (is_valid_name key)) [
  | inr v ↦ absurd (ground (arith, h, v))
  | inl v ↦ elim (Bool-cases (has key env)) [
    | inl e ↦ absurd (ground (arith, h, v, e))
    | inr e ↦
        subst (Extends env)
          (ok-injective {E = ConfigError} (put key val env) env' (ground (arith, h, v, e)))
          (put-Extends key val env v i)
  ]
]

env_lines-ok :
    (lines : List (List Str)) (env env' : Map Str Str)
    → env_lines lines env ≡ ok env'
    → IsMap env
    → Extends env env'
unfolding env_lines
env_lines-ok [] env env' h i =
    subst (Extends env) (ok-injective {E = ConfigError} env env' h) (i, λ k e. inl e)
env_lines-ok (line ∷ lines) env env' h i =
    let first = bind-ok (env_line line env) (env_lines lines) env' h in
    let here = env_line-ok line env first.0 first.1 i in
    let rest = env_lines-ok lines first.0 env' first.2 here.0 in
    (rest.0, λ k e. elim (rest.1 k e) [ inl p ↦ here.1 k p | inr v ↦ inr v ])

-- An environment: each name once, and either valid or given by `env_raw`.
pub env_of-ok :
    (out : Outside) (t : TomlVmConfig) (env : Map Str Str)
    → env_of out t ≡ ok env
    → IsMap env
      × ((k : Str) → has k env ≡ true → IsGiven out t.env_raw k ⊎ (is_valid_name k ≡ true))
unfolding env_of
env_of-ok out t env h =
    let first = bind-ok (raw_env out t.env_raw) (env_lines t.env) env h in
    let raw = raw_env-ok out t.env_raw first.0 first.1 in
    let rest = env_lines-ok t.env first.0 env first.2 raw.0 in
    (rest.0, λ k e. elim (rest.1 k e) [ inl p ↦ inl (raw.1 k p) | inr v ↦ inr v ])
