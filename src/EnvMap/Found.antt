-- ===== src/EnvMap/Found.antt =====
-- The secrets that `GetSecretsMap` finds.
use mulch.Prelude.{
  Option, none, ◌++◌, ◌≡◌, refl, ◌∙◌, ap, false, some, List, [], ◌∷◌, map, arith, All, ◌==◌,
  if◌then◌else◌,
}
use mulch.GoMap.{Map, get, put}
use mulch.GoMap.Laws.{get-put}
use mulch.Text.{Str, str_eq, str_beq_iff}
use mulch.Secrets
use mulch.Secrets.{Secret, SecretDatabase}
use mulch.Config.Env.{path_base}
use mulch.Config.Names.{NoRepeat}
use mulch.EnvMap.{SecretsMap, add_secret, secrets_loop, get_secrets_map}

-- The secret is known, and its value stands under the last part of its path.
abbrev pub IsFound : SecretDatabase → Map Str Str → Str → Type 0
IsFound sdb res path =
    (s : Secret) × (Secrets.get path sdb ≡ some s) × (get (path_base path) res ≡ some s.value)

abbrev pub IsKnown : SecretDatabase → Str → Type 0
IsKnown sdb path = (s : Secret) × (Secrets.get path sdb ≡ some s)

get-put_str :
    (k j v : Str) (m : Map Str Str) → get j (put k v m) ≡ (if k == j then some v else get j m)
get-put_str k j v m = get-put k j v m

add_secret-known :
    (sdb : SecretDatabase) (path : Str) (s : Secret) (found : SecretsMap)
    → Secrets.get path sdb ≡ some s
    → add_secret path (Secrets.get path sdb) found ≡ (put (path_base path) s.value found.0, found.1)
unfolding add_secret
add_secret-known sdb path s (res, missing) e = ap (λ o. add_secret path o (res, missing)) e

-- A name that none of the secrets has keeps its value.
secrets_loop-keeps :
    (sdb : SecretDatabase) (paths : List Str) (found : SecretsMap) (n : Str)
    → All (IsKnown sdb) paths
    → All (λ m. (n == m) ≡ false) (map path_base paths)
    → get n (secrets_loop sdb paths found).0 ≡ get n found.0
unfolding secrets_loop
secrets_loop-keeps sdb [] found n k h = refl
secrets_loop-keeps sdb (p ∷ paths) found n k h =
    let s : Secret = k.0.0 in
    secrets_loop-keeps sdb paths (add_secret p (Secrets.get p sdb) found) n k.1 h.1
    ∙ ap (λ r. get n r.0) (add_secret-known sdb p s found k.0.1)
    ∙ ground (
      arith,
      h.0,
      get-put_str (path_base p) n s.value found.0,
      str_beq_iff (path_base p) n,
      str_beq_iff n (path_base p),
    )

secrets_loop-IsFound :
    (sdb : SecretDatabase) (paths : List Str) (found : SecretsMap)
    → All (IsKnown sdb) paths
    → NoRepeat (map path_base paths)
    → ((secrets_loop sdb paths found).1 ≡ found.1)
      × All (IsFound sdb (secrets_loop sdb paths found).0) paths
unfolding secrets_loop
secrets_loop-IsFound sdb [] found k h = (refl, tt)
secrets_loop-IsFound sdb (p ∷ paths) found k h =
    let s : Secret = k.0.0 in
    let next = add_secret p (Secrets.get p sdb) found in
    let known = add_secret-known sdb p s found k.0.1 in
    let rest = secrets_loop-IsFound sdb paths next k.1 h.1 in
    (
      rest.0 ∙ ap (λ r. r.1) known,
      (
        (
          s,
          k.0.1,
          secrets_loop-keeps sdb paths next (path_base p) k.1 h.0
              ∙ ap (λ r. get (path_base p) r.0) known
              ∙ ground (
                arith,
                get-put_str (path_base p) (path_base p) s.value found.0,
                str_beq_iff (path_base p) (path_base p),
              ),
        ),
        rest.1,
      ),
    )

not_nil-snoc : (xs : List Str) (x : Str) → xs ++ (x ∷ []) ≡ [] → ⊥
not_nil-snoc [] x h = ground (arith, h)
not_nil-snoc (y ∷ xs) x h = ground (arith, h)

add_secret-missing :
    (sdb : SecretDatabase) (path : Str) (o : Option Secret) (found : SecretsMap)
    → Secrets.get path sdb ≡ o
    → (add_secret path o found).1 ≡ []
    → (found.1 ≡ []) × IsKnown sdb path
unfolding add_secret
add_secret-missing sdb path none (res, missing) g e = absurd (not_nil-snoc missing path e)
add_secret-missing sdb path (some s) (res, missing) g e = (e, (s, g))

secrets_loop-IsKnown :
    (sdb : SecretDatabase) (paths : List Str) (found : SecretsMap)
    → (secrets_loop sdb paths found).1 ≡ []
    → (found.1 ≡ []) × All (IsKnown sdb) paths
unfolding secrets_loop
secrets_loop-IsKnown sdb [] found e = (e, tt)
secrets_loop-IsKnown sdb (p ∷ paths) found e =
    let rest = secrets_loop-IsKnown sdb paths (add_secret p (Secrets.get p sdb) found) e in
    let here = add_secret-missing sdb p (Secrets.get p sdb) found refl rest.0 in
    (here.0, (here.1, rest.1))

-- If none is missing, all are known.
pub get_secrets_map-IsKnown :
    (sdb : SecretDatabase) (paths : List Str)
    → (get_secrets_map sdb paths).1 ≡ []
    → All (IsKnown sdb) paths
unfolding get_secrets_map
get_secrets_map-IsKnown sdb paths e = (secrets_loop-IsKnown sdb paths ([], []) e).1

-- If all the secrets are known, and the last parts of their paths differ, then none is missing, and each value stands under its name.
pub get_secrets_map-IsFound :
    (sdb : SecretDatabase) (paths : List Str)
    → All (IsKnown sdb) paths
    → NoRepeat (map path_base paths)
    → ((get_secrets_map sdb paths).1 ≡ []) × All (IsFound sdb (get_secrets_map sdb paths).0) paths
unfolding get_secrets_map
get_secrets_map-IsFound sdb paths k h = secrets_loop-IsFound sdb paths ([], []) k h
