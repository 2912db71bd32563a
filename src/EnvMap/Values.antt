-- ===== src/EnvMap/Values.antt =====
-- The values of the variables that `GetEnvMap` returns without an error.
use mulch.Prelude.{
  map, ◌≡◌, refl, sym, ◌∙◌, subst, inl, inr, none, some, List, [], ◌∷◌, arith, All, All-map,
  Bool-cases, ◌==◌,
}
use mulch.GoMap.{Map, get, put}
use mulch.GoMap.Laws.{IsMap, Entries}
use mulch.Text.{Str, lit, str_eq, str_beq, str_beq_iff}
use mulch.VmName.{VmName}
use mulch.Vm.{Vm}
use mulch.Secrets.{Secret, SecretDatabase}
use mulch.Domain.{Domain}
use mulch.Text.Words.{join}
use mulch.Text.Decimal.{itoa, digits}
use mulch.Config.Names.{NoRepeat}
use mulch.EnvMap.Found.{IsFound, get_secrets_map-IsFound, get_secrets_map-IsKnown}
use mulch.Config.Env.{path_base, put_all}
use mulch.EnvMap.{
  first_domain, EnvState, Server, reserved, add_imports, add_values, conflict_error, with_secrets,
  plain_variables, get_secrets_map, get_env_map,
}
use mulch.EnvMap.Added.{
  get-put_str, add_values-Keeps, add_values-Entries, add_imports-Keeps, Forwarded,
  add_imports-Forwarded,
}

abbrev first_name : List Domain → Str
first_name [] = []
first_name (d ∷ ds) = d.name

Entries-map :
    (P Q : Str → Str → Type 0)
    → ((k v : Str) → P k v → Q k v)
    → (m : Map Str Str) → Entries P m
    → Entries Q m
Entries-map P Q f [] h = tt
Entries-map P Q f ((k, v) ∷ m) h = (f k v h.0, Entries-map P Q f m h.1)

get-put_all : (k : Str) (m env : Map Str Str) → get k m ≡ none → get k (put_all m env) ≡ get k env
unfolding get put_all
get-put_all k [] env h = refl
get-put_all k ((j, v) ∷ m) env h =
    get-put_all k m (put j v env) (ground (arith, h)) ∙ ground (arith, h, get-put_str j k v env)

put_all-Entries :
    (m env : Map Str Str) → IsMap m → Entries (λ k v. get k (put_all m env) ≡ some v) m
unfolding put_all
put_all-Entries [] env i = tt
put_all-Entries ((k, v) ∷ m) env i = (
  get-put_all k m (put k v env) i.0 ∙ ground (arith, get-put_str k k v env, str_beq_iff k k),
  put_all-Entries m (put k v env) i.1,
)

reserved-IsMap : (server : Server) (vm : Vm) (name : VmName) → IsMap (reserved server vm name)
unfolding reserved get str_beq
reserved-IsMap server vm name = (
  refl,
  (
    refl,
    (
      refl,
      (
        refl,
        (
          refl,
          (
            refl,
            (refl, (refl, (refl, (refl, (refl, (refl, (refl, (refl, (refl, (refl, tt)))))))))),
          ),
        ),
      ),
    ),
  ),
)

-- The variables of every machine, with their values
abbrev pub variables : Server → Vm → VmName → Map Str Str
variables server vm name =
    (lit "_MULCH_SUPER_USER", server.super_user)
    ∷ (lit "_BACKUP", lit "/mnt/backup")
    ∷ (lit "_APP_USER", vm.config.app_user)
    ∷ (lit "_VM_NAME", name.name)
    ∷ (lit "_VM_REVISION", itoa name.revision)
    ∷ (lit "_KEY_DESC", vm.author_key)
    ∷ (lit "_MULCH_VERSION", server.version)
    ∷ (lit "_VM_INIT_DATE", server.format vm.init_date)
    ∷ (lit "_DOMAINS", join b',' (map (λ d. d.name) vm.config.domains))
    ∷ (lit "_DOMAIN_FIRST", first_name vm.config.domains)
    ∷ (lit "_MULCH_PROXY_IP", server.mulch_ip)
    ∷ (lit "_PORT1", lit "9001")
    ∷ (lit "_PORT2", lit "9002")
    ∷ (lit "_PORT3", lit "9003")
    ∷ (lit "_PORT4", lit "9004")
    ∷ (lit "_PORT5", lit "9005")
    ∷ []

first_domain-first_name : (ds : List Domain) → first_domain ds ≡ first_name ds
first_domain-first_name [] = refl
first_domain-first_name (d ∷ ds) = refl

reserved-variables :
    (server : Server) (vm : Vm) (name : VmName) → reserved server vm name ≡ variables server vm name
unfolding reserved itoa digits
reserved-variables server vm name = rw (first_domain-first_name vm.config.domains) refl

-- The environment of a machine: the variables of every machine, the forwarded ports, the
-- environment of its configuration, and its secrets, which are all known, by the last parts of their
-- paths.
pub record IsEnv (server : Server) (sdb : SecretDatabase) (vm : Vm) (name : VmName)
    (res : Map Str Str) : Type 0 where
  pub reserved_values : Entries (λ k v. get k res ≡ some v) (variables server vm name)
  pub imports : All (Forwarded res) vm.config.ports
  pub env : Entries (λ k v. get k res ≡ some v) vm.config.env
  pub secrets : All (IsFound sdb res) vm.config.secrets

Entries-get :
    (P : Str → Str → Type 0) (k v : Str) (m : Map Str Str) → Entries P m → get k m ≡ some v → P k v
unfolding get
Entries-get P k v [] h g = absurd (ground (arith, g))
Entries-get P k v ((j, u) ∷ m) h g = elim (Bool-cases (j == k)) [
  | inl e ↦
      subst (λ x. P k x) (ground (arith, e, g)) (subst (λ x. P x u) ((str_beq_iff j k).0 e) h.0)
  | inr e ↦ Entries-get P k v m h.1 (ground (arith, e, g))
]

-- A secret that is in the map of secrets is in the environment.
IsFound-kept :
    (sdb : SecretDatabase) (m res : Map Str Str) (paths : List Str)
    → Entries (λ k v. get k res ≡ some v) m
    → All (IsFound sdb m) paths
    → All (IsFound sdb res) paths
IsFound-kept sdb m res [] h f = tt
IsFound-kept sdb m res (p ∷ paths) h f =
    let s : Secret = f.0.0 in
    (
      (s, f.0.1, Entries-get (λ k v. get k res ≡ some v) (path_base p) s.value m h f.0.2),
      IsFound-kept sdb m res paths h f.1,
    )

conflict_error-none :
    (s : EnvState) → (conflict_error s).1 ≡ none → (s.1 ≡ []) × ((conflict_error s).0 ≡ s.0)
unfolding conflict_error
conflict_error-none (res, []) h = (refl, refl)
conflict_error-none (res, key ∷ keys) h = absurd (ground (arith, h))

with_secrets-none :
    (found : Map Str Str × List Str) (s : EnvState)
    → (with_secrets found s).1 ≡ none
    → (found.1 ≡ [])
      × ((add_values found.0 s).1 ≡ [])
      × ((with_secrets found s).0 ≡ (add_values found.0 s).0)
unfolding with_secrets
with_secrets-none (secrets, path ∷ paths) (res, conflict) h = absurd (ground (arith, h))
with_secrets-none (secrets, []) s h =
    let c = conflict_error-none (add_values secrets s) h in (refl, c.0, c.1)

-- If the last parts of the secrets' paths differ, as they do in an accepted configuration, and `GetEnvMap` returns no error, then every secret is known, and the map has: the sixteen variables of every machine, with their values; for each imported port, its variable, with the port on which the import is forwarded; each name of the configuration's environment, with its value; and the last part of each secret's path, with the value of the secret.
pub get_env_map_lem :
    (server : Server) (sdb : SecretDatabase) (vm : Vm) (name : VmName)
    → NoRepeat (map path_base vm.config.secrets)
    → (get_env_map server sdb vm name).1 ≡ none
    → IsEnv server sdb vm name (get_env_map server sdb vm name).0
unfolding get_env_map plain_variables
get_env_map_lem server sdb vm name differ h =
    let found = get_secrets_map sdb vm.config.secrets in
    let s0 : EnvState = (put_all (reserved server vm name) [], []) in
    let s1 : EnvState = add_imports vm.config.ports s0 in
    let s2 : EnvState = add_values vm.config.env s1 in
    let s3 : EnvState = add_values found.0 s2 in
    let w = with_secrets-none found s2 h in
    let k3 = add_values-Keeps found.0 s2 w.1 in
    let k2 = add_values-Keeps vm.config.env s1 k3.0 in
    let k1 = add_imports-Keeps vm.config.ports s0 k2.0 in
    subst (IsEnv server sdb vm name) (sym w.2) (record {
      reserved_values =
          subst (Entries (λ k v. get k s3.0 ≡ some v)) (reserved-variables server vm name) (
            Entries-map _ _ (λ k v g. k3.1 k v (k2.1 k v (k1.1 k v g))) (reserved server vm name)
              (put_all-Entries (reserved server vm name) [] (reserved-IsMap server vm name)));
      imports =
          All-map _ _ (λ p f i. k3.1 _ _ (k2.1 _ _ (f i))) vm.config.ports
            (add_imports-Forwarded vm.config.ports s0 k2.0);
      env =
          Entries-map _ _ (λ k v g. k3.1 k v g) vm.config.env
            (add_values-Entries vm.config.env s1 k3.0);
      secrets =
          IsFound-kept sdb found.0 s3.0 vm.config.secrets (add_values-Entries found.0 s2 w.1)
            (get_secrets_map-IsFound sdb vm.config.secrets
              (get_secrets_map-IsKnown sdb vm.config.secrets w.0) differ).1;
    })
