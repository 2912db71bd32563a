-- ===== src/Config/Accepts.antt =====
-- The steps of `NewVMConfigFromTomlReader` accepts, up to the whole.
use mulch.Prelude.{
  ◌≤◌, ◌*◌, ◌≡◌, sym, ◌∙◌, ap, subst, ◌⊎◌, inl, inr, Bool, true, false, not, ◌&&◌, Option, none,
  some, List, [], ◌∷◌, map, leb, arith, All, Bool-cases, Outcome, ok, err, panic,
}
use mulch.GoMap.{Map, has}
use mulch.GoMap.Laws.{IsMap}
use mulch.Text.{Str, str_eq}
use mulch.Text.Decimal.{ℤ, pos}
use mulch.Text.Words.{is_nil, is_valid_name}
use mulch.Domain.{Domain}
use mulch.VmPort.{VmPort}
use mulch.VmPort.Parse.{PortError}
use mulch.VmPort.Bounds.{bind-ok, ok-injective}
use mulch.VmPort.Ranges.{new_vm_port_array}
use mulch.VmPort.Arrays.{IsPortArray, new_vm_port_array-IsPortArray}
use mulch.Vm.{VmConfig}
use mulch.Config.{TomlVmConfig, ConfigError, Outside, megabyte, second, at_least, ensure}
use mulch.Config.Domains.{all_domains}
use mulch.Config.Env.{path_base, env_of, check_secrets}
use mulch.Config.Scripts.{tags_of, is_auto_rebuild, timeout_value}
use mulch.Config.Reader.{
  known_settings, named, check_machine, ports_or_error, timeout_of, all_scripts, network_of,
  do_actions_of, make_config, config_of, new_vm_config,
}
use mulch.Config.Names.{NoRepeat, IsSecret, check_secrets-ok, IsGiven, env_of-ok}
use mulch.Config.Shebang.{ensure-ok, do_actions_of-ok, tags_of-ok, all_scripts-ok}
use mulch.Config.Valid.{AreDomains, all_domains-ok, hostname_of-ok, is_auto_rebuild-any, IsVmConfig}

not_nil : (s : Str) (b : Bool) → (not (is_nil s) && b) ≡ true → (is_nil s ≡ false) × (b ≡ true)
not_nil s b h = (ground (arith, h), ground (arith, h))

known_settings-ok :
    (o : Option (TomlVmConfig × List Str)) (t : TomlVmConfig)
    → known_settings o ≡ ok t
    → o ≡ some (t, [])
unfolding known_settings
known_settings-ok none t h = absurd (ground (arith, h))
known_settings-ok (some (u, [])) t h = ap (λ v. some (v, [])) (ok-injective {E = ConfigError} u t h)
known_settings-ok (some (u, x ∷ xs)) t h = absurd (ground (arith, h))

record IsMachine (t : TomlVmConfig) : Type 0 where
  name : (is_nil t.name ≡ false) × (is_valid_name t.name ≡ true)
  app_user : is_nil t.app_user ≡ false
  seed : (is_nil t.seed ≡ false) × (is_valid_name t.seed ≡ true)
  disk : megabyte ≤ t.disk_size
  ram : megabyte ≤ t.ram_size
  cpu : at_least 1 t.cpu_count ≡ true

check_machine-ok : (t : TomlVmConfig) → check_machine t ≡ ok tt → IsMachine t
unfolding check_machine
check_machine-ok t h =
    let a = bind-ok (ensure (named t.name) ConfigError.bad_name) _ tt h in
    let b = bind-ok (ensure (not (is_nil t.app_user)) ConfigError.bad_app_user) _ tt a.2 in
    let c = bind-ok (ensure (named t.seed) ConfigError.bad_seed) _ tt b.2 in
    let d = bind-ok (ensure (leb megabyte t.disk_size) ConfigError.small_disk) _ tt c.2 in
    let e = bind-ok (ensure (leb megabyte t.ram_size) ConfigError.small_ram) _ tt d.2 in
    record {
      name =
          not_nil t.name (is_valid_name t.name) (ensure-ok (named t.name) ConfigError.bad_name a.1);
      app_user = ground (arith, ensure-ok (not (is_nil t.app_user)) ConfigError.bad_app_user b.1);
      seed =
          not_nil t.seed (is_valid_name t.seed) (ensure-ok (named t.seed) ConfigError.bad_seed c.1);
      disk = ground (arith, ensure-ok (leb megabyte t.disk_size) ConfigError.small_disk d.1);
      ram = ground (arith, ensure-ok (leb megabyte t.ram_size) ConfigError.small_ram e.1);
      cpu = ensure-ok (at_least 1 t.cpu_count) ConfigError.no_cpu e.2;
    }

timeout_value-ok : (o : Option ℤ) (n : ℤ) → timeout_value o ≡ ok n → at_least (15 * second) n ≡ true
unfolding timeout_value
timeout_value-ok none n h = absurd (ground (arith, h))
timeout_value-ok (some k) n h = elim (Bool-cases (at_least (15 * second) k)) [
  | inl e ↦
      ap (at_least (15 * second)) (sym (ok-injective {E = ConfigError} k n (ground (arith, h, e))))
      ∙ e
  | inr e ↦ absurd (ground (arith, h, e))
]

timeout_of-ok :
    (out : Outside) (s : Str) (n : ℤ)
    → timeout_of out s ≡ ok n
    → (n ≡ pos 0) ⊎ (at_least (15 * second) n ≡ true)
unfolding timeout_of
timeout_of-ok out s n h = elim (Bool-cases (is_nil s)) [
  | inl e ↦ inl (sym (ok-injective {E = ConfigError} (pos 0) n (ground (arith, h, e))))
  | inr e ↦ inr (timeout_value-ok (out.parse_duration s) n (ground (arith, h, e)))
]

ports_or_error-ok :
    (o : Outcome PortError (List VmPort)) (ports : List VmPort)
    → ports_or_error o ≡ ok ports
    → o ≡ ok ports
unfolding ports_or_error
ports_or_error-ok (ok ps) ports h = ap ok (ok-injective {E = ConfigError} ps ports h)
ports_or_error-ok (err e) ports h = absurd (ground (arith, h))
ports_or_error-ok panic ports h = absurd (ground (arith, h))

record IsNetwork (out : Outside) (t : TomlVmConfig) (n : List Domain × Map Str Str × List VmPort)
    : Type 0 where
  domains : AreDomains n.0
  env :
      IsMap n.1
      × ((k : Str) → has k n.1 ≡ true → IsGiven out t.env_raw k ⊎ (is_valid_name k ≡ true))
  secret_names : NoRepeat (map path_base t.secrets)
  secrets : All (IsSecret out.secrets n.1) t.secrets
  ports : IsPortArray n.2

network_of-ok :
    (out : Outside) (t : TomlVmConfig) (n : List Domain × Map Str Str × List VmPort)
    → network_of out t ≡ ok n
    → IsNetwork out t n
unfolding network_of
network_of-ok out t n h =
    let a = bind-ok (all_domains t) _ n h in
    let b = bind-ok (env_of out t) _ n a.2 in
    let c = bind-ok (check_secrets out.secrets b.0 t.secrets []) _ n b.2 in
    let d = bind-ok (ports_or_error (new_vm_port_array t.ports)) _ n c.2 in
    let secrets = check_secrets-ok out.secrets b.0 t.secrets [] c.1 in
    subst (IsNetwork out t) (ok-injective {E = ConfigError} (a.0, b.0, d.0) n d.2) (record {
      domains = all_domains-ok t a.0 a.1;
      env = env_of-ok out t b.0 b.1;
      secret_names = secrets.1;
      secrets = secrets.2;
      ports =
          new_vm_port_array-IsPortArray t.ports d.0
            (ports_or_error-ok (new_vm_port_array t.ports) d.0 d.1);
    })

config_of-ok :
    (out : Outside) (content : Str) (t : TomlVmConfig) (c : VmConfig)
    → out.decode content ≡ some (t, [])
    → config_of out content t ≡ ok c
    → IsVmConfig out c
unfolding config_of make_config do_actions_of
config_of-ok out content t c decoded h =
    let a = bind-ok (check_machine t) _ c h in
    let b = bind-ok (network_of out t) _ c a.2 in
    let small = ConfigError.small_backup_disk in
    let d = bind-ok (ensure (leb (32 * megabyte) t.backup_disk_size) small) _ c b.2 in
    let e = bind-ok (all_scripts out t) _ c d.2 in
    let f =
      bind-ok (ensure (is_auto_rebuild t.auto_rebuild) ConfigError.bad_auto_rebuild) _ c e.2 in
    let g = bind-ok (timeout_of out t.build_timeout) _ c f.2 in
    let i = bind-ok (do_actions_of out t) _ c g.2 in
    let j = bind-ok (tags_of t.tags []) _ c i.2 in
    let m = check_machine-ok t a.1 in
    let n = network_of-ok out t b.0 b.1 in
    let s = all_scripts-ok out t e.0 e.1 in
    subst (IsVmConfig out)
      (ok-injective {E = ConfigError} (make_config content t b.0 e.0 g.0 i.0 j.0) c j.2)
      (record {
        name = m.name;
        app_user = m.app_user;
        seed = m.seed;
        hostname = hostname_of-ok t.hostname b.0.0;
        disk = m.disk;
        ram = m.ram;
        cpu = m.cpu;
        backup_disk = ground (arith, ensure-ok (leb (32 * megabyte) t.backup_disk_size) small d.1);
        domains = n.domains;
        env = (n.env.0, λ k e. elim (n.env.1 k e) [ inl g ↦ inl (t, decoded, g) | inr v ↦ inr v ]);
        secret_names = n.secret_names;
        secrets = n.secrets;
        ports = n.ports;
        prepare = s.0;
        install = s.1;
        backup = s.2;
        restore = s.3;
        auto_rebuild =
            is_auto_rebuild-any t.auto_rebuild
              (ensure-ok (is_auto_rebuild t.auto_rebuild) ConfigError.bad_auto_rebuild f.1);
        timeout = timeout_of-ok out t.build_timeout g.0 g.1;
        actions = do_actions_of-ok out t i.0 i.1;
        tags = tags_of-ok t.tags [] j.0 tt j.1;
      })

-- Whatever the file, and whatever the decoder and the origins return: a configuration that the reader accepts has a name and a seed that are valid and not empty, an application user, a host name, at least a megabyte of disk and of memory, at least one CPU and 32 megabytes of backup disk. Its domains all differ: first come those that are no redirections, then the redirections, each to one of the first by code 301, 302, 307 or 308. Each name of its environment stands once, and is valid or given by the env_raw of the file. Each of its secrets is known, their last parts differ, and none is a name of the environment. Its ports are a valid array. Each of its scripts can be read and starts with a shebang, and its user has a valid name. Its rebuild setting is empty, daily, weekly or monthly, and its timeout is 0 or at least 15 seconds. Its actions stand once, each under its own name, a word, with a script that can be read; its tags are words.
pub new_vm_config-IsVmConfig :
    (out : Outside) (content : Option Str) (c : VmConfig)
    → new_vm_config out content ≡ ok c
    → IsVmConfig out c
unfolding new_vm_config
new_vm_config-IsVmConfig out none c h = absurd (ground (arith, h))
new_vm_config-IsVmConfig out (some content) c h =
    let a = bind-ok (known_settings (out.decode content)) _ c h in
    config_of-ok out content a.0 c (known_settings-ok (out.decode content) a.0 a.1) a.2
