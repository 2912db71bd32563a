-- ===== src/EnvMap/Tests.antt =====
-- Runs of `GetEnvMap` on small examples, and the theorems about it there.
use mulch.Prelude.{◌≡◌, refl, false, none, some, []}
use mulch.GoMap
use mulch.Text.{lit, str_beq}
use mulch.Text.Decimal.{itoa, digits}
use mulch.Text.Words.{split}
use mulch.VmName.{VmName}
use mulch.VmPort.Comment.{starts_with_char}
use mulch.Vm.{Vm}
use mulch.Secrets
use mulch.Secrets.{Secret, SecretDatabase}
use mulch.Config.Samples.{outside, accepted, settings-accepted}
use mulch.Config.Accepts.{new_vm_config-IsVmConfig}
use mulch.Config.Env.{path_base, put_all}
use mulch.EnvMap.{
  Server, get_env_map, get_secrets_map, secrets_loop, add_secret, reserved, port_variable,
  forward_port, add_import, add_imports, add_value, add_values, conflict_error, with_secrets,
  plain_variables,
}
use mulch.EnvMap.Values.{IsEnv, get_env_map_lem}
use mulch.EnvMap.Total.{get_env_map-accepted}

abbrev server : Server
server = record {
  super_user = lit "admin";
  version = lit "1";
  mulch_ip = lit "10.104.0.1";
  format = λ n. lit "today";
}

abbrev machine : Vm
machine = record {
  address = 1;
  secret_uuid = lit "uuid";
  config = accepted;
  author_key = lit "alice";
  init_date = 0;
  last_ip = [];
  locked = false;
  wip = [];
  assigned_mac = [];
  assigned_ipv4 = [];
}

abbrev web : VmName
web = record { name = lit "web"; revision = 0 }

no_error : (get_env_map server outside.secrets machine web).1 ≡ none
unfolding get_env_map get_secrets_map secrets_loop add_secret reserved port_variable forward_port
    add_import add_imports add_value add_values conflict_error with_secrets plain_variables
    path_base put_all Secrets.get GoMap.get GoMap.has GoMap.put str_beq split itoa digits
no_error = refl

get_env_map_example :
    IsEnv server outside.secrets machine web (get_env_map server outside.secrets machine web).0
unfolding path_base split
get_env_map_example = get_env_map_lem server outside.secrets machine web (tt, tt) no_error

get_env_map-accepted_example : (get_env_map server outside.secrets machine web).1 ≡ none
unfolding starts_with_char path_base split
get_env_map-accepted_example =
    get_env_map-accepted outside server machine web
      (new_vm_config-IsVmConfig outside (some []) accepted settings-accepted) (refl, tt) (refl, tt)
      (tt, tt)
