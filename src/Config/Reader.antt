-- ===== src/Config/Reader.antt =====
-- `NewVMConfigFromTomlReader` of cmd/mulchd/server/vm_config.go: the checks, in the order of the code,
-- and the configuration. The record is made at the end, since an error returns none of it.
use mulch.Prelude.{
  ◌*◌, Bool, not, ◌&&◌, Option, none, some, List, [], ◌∷◌, leb, if◌then◌else◌, Outcome, ok, err,
  panic, ◌>>=◌,
}
use mulch.GoMap.{Map}
use mulch.Text.{Str}
use mulch.Text.Decimal.{ℤ, pos}
use mulch.Text.Words.{is_nil, is_valid_name}
use mulch.Domain.{Domain}
use mulch.VmPort.{VmPort}
use mulch.VmPort.Parse.{PortError}
use mulch.VmPort.Ranges.{new_vm_port_array}
use mulch.Vm.{VmConfig, VmConfigScript, VmDoAction}
use mulch.Config.{TomlVmConfig, ConfigError, Outside, bad_ports, megabyte, at_least, ensure}
use mulch.Config.Domains.{all_domains, hostname_of}
use mulch.Config.Env.{env_of, check_secrets}
use mulch.Config.Scripts.{
  scripts_of, actions_of, action_map, tags_of, is_auto_rebuild, timeout_value,
}

-- The settings of the file, all of them known.
unfoldable pub known_settings : Option (TomlVmConfig × List Str) → Outcome ConfigError TomlVmConfig
known_settings none = err ConfigError.not_toml
known_settings (some (t, [])) = ok t
known_settings (some (t, _ ∷ _)) = err ConfigError.unknown_setting

abbrev pub named : Str → Bool
named s = not (is_nil s) && is_valid_name s

-- The checks from the name to the number of CPUs.
unfoldable pub check_machine : TomlVmConfig → Outcome ConfigError Unit
check_machine t = ensure (named t.name) ConfigError.bad_name >>= λ _.
    ensure (not (is_nil t.app_user)) ConfigError.bad_app_user >>= λ _.
    ensure (named t.seed) ConfigError.bad_seed >>= λ _.
    ensure (leb megabyte t.disk_size) ConfigError.small_disk >>= λ _.
    ensure (leb megabyte t.ram_size) ConfigError.small_ram >>= λ _.
    ensure (at_least 1 t.cpu_count) ConfigError.no_cpu

unfoldable pub ports_or_error : Outcome PortError (List VmPort) → Outcome ConfigError (List VmPort)
ports_or_error (ok ports) = ok ports
ports_or_error (err e) = err (bad_ports e)
ports_or_error panic = panic

unfoldable pub timeout_of : Outside → Str → Outcome ConfigError ℤ
timeout_of out s = if is_nil s then ok (pos 0) else timeout_value (out.parse_duration s)

-- The prepare, install, backup and restore scripts
unfoldable pub all_scripts :
    Outside
    → TomlVmConfig
    → Outcome ConfigError
        (List VmConfigScript × List VmConfigScript × List VmConfigScript × List VmConfigScript)
all_scripts out t = scripts_of out t.prepare_prefix_url t.prepare >>= λ prepare.
    scripts_of out t.install_prefix_url t.install >>= λ install.
    scripts_of out t.backup_prefix_url t.backup >>= λ backup.
    scripts_of out t.restore_prefix_url t.restore >>= λ restore.
    ok (prepare, install, backup, restore)

-- From the domains to the ports
unfoldable pub network_of :
    Outside → TomlVmConfig → Outcome ConfigError (List Domain × Map Str Str × List VmPort)
network_of out t = all_domains t >>= λ domains. env_of out t >>= λ env.
    check_secrets out.secrets env t.secrets [] >>= λ _.
    ports_or_error (new_vm_port_array t.ports) >>= λ ports. ok (domains, env, ports)

unfoldable pub do_actions_of : Outside → TomlVmConfig → Outcome ConfigError (Map Str VmDoAction)
do_actions_of out t = actions_of out t.do_actions >>= λ actions. action_map actions []

unfoldable pub make_config :
    Str
    → TomlVmConfig
    → List Domain × Map Str Str × List VmPort
    → List VmConfigScript × List VmConfigScript × List VmConfigScript × List VmConfigScript
    → ℤ
    → Map Str VmDoAction
    → Map Str Bool
    → VmConfig
make_config content t (domains, env, ports) (prepare, install, backup, restore) timeout actions
      tags =
    record {
      file_content = content;
      name = t.name;
      hostname = hostname_of t.hostname domains;
      timezone = t.timezone;
      app_user = t.app_user;
      seed = t.seed;
      init_upgrade = t.init_upgrade;
      disk_size = t.disk_size;
      ram_size = t.ram_size;
      cpu_count = t.cpu_count;
      domains = domains;
      env = env;
      secrets = t.secrets;
      ports = ports;
      backup_disk_size = t.backup_disk_size;
      backup_compress = t.backup_compress;
      restore_backup = t.restore_backup;
      auto_rebuild = t.auto_rebuild;
      build_timeout = timeout;
      prepare = prepare;
      install = install;
      backup = backup;
      restore = restore;
      do_actions = actions;
      tags = tags;
    }

unfoldable pub config_of : Outside → Str → TomlVmConfig → Outcome ConfigError VmConfig
config_of out content t = check_machine t >>= λ _. network_of out t >>= λ network.
    ensure (leb (32 * megabyte) t.backup_disk_size) ConfigError.small_backup_disk >>= λ _.
    all_scripts out t >>= λ scripts.
    ensure (is_auto_rebuild t.auto_rebuild) ConfigError.bad_auto_rebuild >>= λ _.
    timeout_of out t.build_timeout >>= λ timeout. do_actions_of out t >>= λ actions.
    tags_of t.tags [] >>= λ tags. ok (make_config content t network scripts timeout actions tags)

-- `NewVMConfigFromTomlReader`; no content is a failed read.
unfoldable pub new_vm_config : Outside → Option Str → Outcome ConfigError VmConfig
new_vm_config out none = err ConfigError.unreadable
new_vm_config out (some content) = known_settings (out.decode content) >>= config_of out content
