-- ===== src/Config/Env.antt =====
-- The environment variables and secrets of cmd/mulchd/server/vm_config.go,
-- `NewVMConfigFromTomlReader`.
use mulch.Prelude.{
  Bool, true, not, Option, none, some, List, [], ◌∷◌, all, if◌then◌else◌, Outcome, ok, err, ◌>>=◌,
}
use mulch.GoMap.{Map, has, put}
use mulch.Text.{Str, lit, str_eq}
use mulch.Text.Words.{split, is_nil, is_valid_name}
use mulch.Secrets
use mulch.Secrets.{Secret, SecretDatabase}
use mulch.Config.{ConfigError, Outside, TomlVmConfig}

last_word : List Str → Str
last_word [] = lit "/"
last_word (w ∷ ws) =
    let rest = last_word ws in if all is_nil ws then (if is_nil w then lit "/" else w) else rest

-- `path.Base` and `filepath.Base`: the last part of a path that is not empty.
unfoldable pub path_base : Str → Str
unfolding last_word
path_base s = if is_nil s then lit "." else last_word (split b'/' s)

unfoldable pub put_all : Map Str Str → Map Str Str → Map Str Str
put_all [] env = env
put_all ((key, val) ∷ m) env = put_all m (put key val env)

unfoldable pub raw_values : Option (Map Str Str) → Outcome ConfigError (Map Str Str)
raw_values none = err ConfigError.bad_env_raw
raw_values (some m) = ok (put_all m [])

-- `env_raw`
unfoldable pub raw_env : Outside → Str → Outcome ConfigError (Map Str Str)
raw_env out s = if is_nil s then ok [] else raw_values (out.unmarshal s)

-- One line of `env`
unfoldable pub env_line : List Str → Map Str Str → Outcome ConfigError (Map Str Str)
env_line [] env = err ConfigError.bad_env_line
env_line (_ ∷ []) env = err ConfigError.bad_env_line
env_line (key ∷ val ∷ []) env =
    if not (is_valid_name key)
    then err ConfigError.bad_env_name
    else if has key env
    then err ConfigError.duplicated_env
    else ok (put key val env)
env_line (_ ∷ _ ∷ _ ∷ _) env = err ConfigError.bad_env_line

unfoldable pub env_lines : List (List Str) → Map Str Str → Outcome ConfigError (Map Str Str)
env_lines [] env = ok env
env_lines (line ∷ lines) env = env_line line env >>= env_lines lines

-- `vmConfig.Env`
unfoldable pub env_of : Outside → TomlVmConfig → Outcome ConfigError (Map Str Str)
env_of out t = raw_env out t.env_raw >>= env_lines t.env

unfoldable pub secret_found : Option Secret → Outcome ConfigError Unit
secret_found none = err ConfigError.no_secret
secret_found (some s) = ok tt

unfoldable pub check_secret :
    SecretDatabase → Map Str Str → Map Str Bool → Str → Outcome ConfigError Unit
check_secret sdb env secrets key_path =
    if has (path_base key_path) secrets
    then err ConfigError.duplicated_secret
    else if has (path_base key_path) env
    then err ConfigError.secret_in_env
    else secret_found (Secrets.get key_path sdb)

-- The loop over the secrets; `secrets` holds the names of the earlier ones.
unfoldable pub check_secrets :
    SecretDatabase → Map Str Str → List Str → Map Str Bool → Outcome ConfigError Unit
check_secrets sdb env [] secrets = ok tt
check_secrets sdb env (key_path ∷ rest) secrets = check_secret sdb env secrets key_path >>= λ _.
    check_secrets sdb env rest (put (path_base key_path) true secrets)
