-- ===== src/Config/Valid.antt =====
-- What `NewVMConfigFromTomlReader` accepts.
use mulch.Prelude.{
  any, ◌==◌, ◌≤◌, ◌≡◌, refl, subst, ◌⊎◌, true, false, List, [], ◌∷◌, ◌++◌, map, arith, All, ok,
}
use mulch.GoMap.{has}
use mulch.GoMap.Laws.{IsMap}
use mulch.Text.{str_beq, Str, lit, str_eq}
use mulch.Text.Decimal.{pos}
use mulch.Text.Words.{is_nil, is_valid_name}
use mulch.Domain.{Domain}
use mulch.VmPort.Bounds.{bind-ok, ok-injective}
use mulch.VmPort.Arrays.{IsPortArray}
use mulch.Vm.{VmConfig}
use mulch.Config.{TomlVmConfig, ConfigError, Outside, at_least}
use mulch.Config.Domains.{
  all_domains, domains_of, redirects_of, check_duplicates, domain_names, hostname_of,
  default_hostname,
}
use mulch.Config.Env.{path_base}
use mulch.Config.Scripts.{is_auto_rebuild}
use mulch.Config.Names.{NoRepeat, check_duplicates-NoRepeat, IsSecret, IsRaw}
use mulch.Config.Shebang.{IsScript, AreActions, AreTags}
use mulch.Config.Redirects.{IsOwn, IsRedirect, domains_of-ok, redirects_of-ok}

-- First the machine's own domains, which are no redirections, then the redirections, each to an own one.
pub record AreDomains (domains : List Domain) : Type 0 where
  pub no_repeat : NoRepeat (domain_names domains)
  pub routes :
      (own others : List Domain) × (domains ≡ own ++ others)
      × All IsOwn own
      × All (IsRedirect (domain_names own)) others

pub all_domains-ok : (t : TomlVmConfig) (ds : List Domain) → all_domains t ≡ ok ds → AreDomains ds
unfolding all_domains
all_domains-ok t ds h =
    let a = bind-ok (domains_of t t.domains) _ ds h in
    let own = domain_names a.0 in
    let b = bind-ok (redirects_of own t.redirects) _ ds a.2 in
    let c = bind-ok (check_duplicates (a.0 ++ b.0) []) _ ds b.2 in
    subst AreDomains (ok-injective {E = ConfigError} (a.0 ++ b.0) ds c.2) (record {
      no_repeat = (check_duplicates-NoRepeat (a.0 ++ b.0) [] c.1).1;
      routes = (
        a.0,
        b.0,
        refl,
        domains_of-ok t t.domains a.0 a.1,
        redirects_of-ok own t.redirects b.0 b.1,
      );
    })

-- How often a machine may be rebuilt: never, or one of these.
abbrev pub rebuild_settings : List Str
rebuild_settings = [] ∷ lit "daily" ∷ lit "weekly" ∷ lit "monthly" ∷ []

pub is_auto_rebuild-any :
    (s : Str) → is_auto_rebuild s ≡ true → any (λ t. s == t) rebuild_settings ≡ true
unfolding is_auto_rebuild str_beq
is_auto_rebuild-any [] h = refl
is_auto_rebuild-any (c ∷ s) h = ground (arith, h)

-- What an accepted configuration is; sizes are in bytes, and times in nanoseconds.
pub record IsVmConfig (out : Outside) (c : VmConfig) : Type 0 where
  pub name : (is_nil c.name ≡ false) × (is_valid_name c.name ≡ true)
  pub app_user : is_nil c.app_user ≡ false
  pub seed : (is_nil c.seed ≡ false) × (is_valid_name c.seed ≡ true)
  pub hostname : is_nil c.hostname ≡ false
  pub disk : 1048576 ≤ c.disk_size
  pub ram : 1048576 ≤ c.ram_size
  pub cpu : at_least 1 c.cpu_count ≡ true
  pub backup_disk : 33554432 ≤ c.backup_disk_size
  pub domains : AreDomains c.domains
  pub env :
      IsMap c.env
      × ((k : Str) → has k c.env ≡ true → IsRaw out c.file_content k ⊎ (is_valid_name k ≡ true))
  pub secret_names : NoRepeat (map path_base c.secrets)
  pub secrets : All (IsSecret out.secrets c.env) c.secrets
  pub ports : IsPortArray c.ports
  pub prepare : All (IsScript out) c.prepare
  pub install : All (IsScript out) c.install
  pub backup : All (IsScript out) c.backup
  pub restore : All (IsScript out) c.restore
  pub auto_rebuild : any (λ s. c.auto_rebuild == s) rebuild_settings ≡ true
  pub timeout : (c.build_timeout ≡ pos 0) ⊎ (at_least 15000000000 c.build_timeout ≡ true)
  pub actions : AreActions out c.do_actions
  pub tags : AreTags c.tags

not_nil-append : (s t : Str) → is_nil t ≡ false → is_nil (s ++ t) ≡ false
not_nil-append [] t h = h
not_nil-append (c ∷ s) t h = refl

default_hostname-ok : (ds : List Domain) → is_nil (default_hostname ds) ≡ false
unfolding default_hostname
default_hostname-ok [] = refl
default_hostname-ok (d ∷ ds) = not_nil-append _ (lit ".localdomain") refl

pub hostname_of-ok : (s : Str) (ds : List Domain) → is_nil (hostname_of s ds) ≡ false
unfolding hostname_of
hostname_of-ok s ds = ground (arith, default_hostname-ok ds)
