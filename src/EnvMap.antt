-- ===== src/EnvMap.antt =====
-- The environment of a virtual machine, of cmd/mulchd/server/vm.go: `GetSecretsMap` and `GetEnvMap`.
pub mod Found
pub mod Added
pub mod Values
pub mod Clean
pub mod Total
mod Tests
use mulch.Prelude.{
  ℕ, ◌+◌, ◌%◌, ◌^◌, Bool, true, false, Option, none, some, List, [], ◌∷◌, ◌++◌, map, ◌==◌,
  if◌then◌else◌,
}
use mulch.GoMap.{Map, has, put}
use mulch.Text.{Str, lit, str_eq}
use mulch.Text.Decimal.{itoa}
use mulch.Text.Words.{join}
use mulch.Domain.{Domain}
use mulch.VmName.{VmName}
use mulch.VmPort.{VmPort, is_import, base_forward}
use mulch.Vm.{Vm}
use mulch.Secrets
use mulch.Secrets.{Secret, SecretDatabase}
use mulch.Config.Domains.{domain_names}
use mulch.Config.Env.{path_base, put_all}

-- The values found, and the secrets that are missing.
abbrev pub SecretsMap : Type 0
SecretsMap = Map Str Str × List Str

unfoldable pub add_secret : Str → Option Secret → SecretsMap → SecretsMap
add_secret path none (res, missing) = (res, missing ++ (path ∷ []))
add_secret path (some s) (res, missing) = (put (path_base path) s.value res, missing)

unfoldable pub secrets_loop : SecretDatabase → List Str → SecretsMap → SecretsMap
secrets_loop sdb [] found = found
secrets_loop sdb (path ∷ paths) found =
    secrets_loop sdb paths (add_secret path (Secrets.get path sdb) found)

-- `GetSecretsMap`; its error is the list of missing secrets, if there are any.
unfoldable pub get_secrets_map : SecretDatabase → List Str → SecretsMap
get_secrets_map sdb paths = secrets_loop sdb paths ([], [])

-- What the variables say of the server; `format` writes a date.
pub record Server : Type 0 where
  pub super_user : Str
  pub version : Str
  pub mulch_ip : Str
  pub format : ℕ → Str

abbrev pub first_domain : List Domain → Str
first_domain [] = []
first_domain (d ∷ ds) = d.name

-- The variables of every machine
unfoldable pub reserved : Server → Vm → VmName → Map Str Str
reserved server vm name =
    (lit "_MULCH_SUPER_USER", server.super_user)
    ∷ (lit "_BACKUP", lit "/mnt/backup")
    ∷ (lit "_APP_USER", vm.config.app_user)
    ∷ (lit "_VM_NAME", name.name)
    ∷ (lit "_VM_REVISION", itoa name.revision)
    ∷ (lit "_KEY_DESC", vm.author_key)
    ∷ (lit "_MULCH_VERSION", server.version)
    ∷ (lit "_VM_INIT_DATE", server.format vm.init_date)
    ∷ (lit "_DOMAINS", join b',' (domain_names vm.config.domains))
    ∷ (lit "_DOMAIN_FIRST", first_domain vm.config.domains)
    ∷ (lit "_MULCH_PROXY_IP", server.mulch_ip)
    ∷ (lit "_PORT1", itoa base_forward)
    ∷ (lit "_PORT2", itoa (base_forward + 1))
    ∷ (lit "_PORT3", itoa (base_forward + 2))
    ∷ (lit "_PORT4", itoa (base_forward + 3))
    ∷ (lit "_PORT5", itoa (base_forward + 4))
    ∷ []

-- The variables so far, and the names that conflict.
abbrev pub EnvState : Type 0
EnvState = Map Str Str × List Str

unfoldable pub port_variable : VmPort → Str
port_variable p = b'_' ∷ (itoa p.port ++ lit "_TCP")

-- `VMPortBaseForward+uint16(port.Index)`
unfoldable pub forward_port : VmPort → Str
forward_port p = itoa ((base_forward + p.index) % 2 ^ 16)

unfoldable pub add_import : VmPort → EnvState → EnvState
add_import p (res, conflict) =
    if has (port_variable p) res
    then (put (port_variable p) (lit "CONFLICT") res, conflict ++ (port_variable p ∷ []))
    else (put (port_variable p) (forward_port p) res, conflict)

unfoldable pub add_imports : List VmPort → EnvState → EnvState
add_imports [] s = s
add_imports (p ∷ ps) s = add_imports ps (if is_import p.direction then add_import p s else s)

-- One name of the configuration's environment, or of the secrets
unfoldable pub add_value : Str → Str → EnvState → EnvState
add_value key val (res, conflict) =
    if has key res then (res, conflict ++ (key ∷ [])) else (put key val res, conflict)

unfoldable pub add_values : Map Str Str → EnvState → EnvState
add_values [] s = s
add_values ((key, val) ∷ m) s = add_values m (add_value key val s)

pub data EnvError : Type 0 where
  missing_secrets conflicting_keys : List Str → EnvError

unfoldable pub conflict_error : EnvState → Map Str Str × Option EnvError
conflict_error (res, []) = (res, none)
conflict_error (res, key ∷ keys) = (res, some (conflicting_keys (key ∷ keys)))

unfoldable pub with_secrets : SecretsMap → EnvState → Map Str Str × Option EnvError
with_secrets (secrets, path ∷ paths) (res, conflict) = (res, some (missing_secrets (path ∷ paths)))
with_secrets (secrets, []) s = conflict_error (add_values secrets s)

-- The variables without the secrets
unfoldable pub plain_variables : Server → Vm → VmName → EnvState
plain_variables server vm name =
    add_values vm.config.env
      (add_imports vm.config.ports (put_all (reserved server vm name) [], []))

-- `GetEnvMap`: the variables, and the error.
unfoldable pub get_env_map : Server → SecretDatabase → Vm → VmName → Map Str Str × Option EnvError
get_env_map server sdb vm name =
    with_secrets (get_secrets_map sdb vm.config.secrets) (plain_variables server vm name)
