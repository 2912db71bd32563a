-- ===== src/Config/Domains.antt =====
-- The domains and redirections of cmd/mulchd/server/vm_config.go, `NewVMConfigFromTomlReader`.
use mulch.Prelude.{
  ℕ, Bool, true, false, ◌||◌, Option, none, some, List, [], ◌∷◌, ◌++◌, eqb, any, map, ◌==◌,
  if◌then◌else◌, Outcome, ok, err, ◌>>=◌,
}
use mulch.GoMap.{Map, has, put}
use mulch.Text.{Str, lit, str_eq}
use mulch.Text.Decimal.{ℤ, pos, negsuc, atoi_int}
use mulch.Text.Words.{to_lower, trim_space, split, is_nil}
use mulch.Domain.{Domain}
use mulch.VmPort.Comment.{split_pair}
use mulch.Config.{TomlVmConfig, ConfigError}

-- `strings.TrimSpace(strings.ToLower(s))`
unfoldable pub host_name : Str → Str
host_name s = trim_space (to_lower s)

unfoldable pub make_domain : TomlVmConfig → Str → ℤ → Domain
unfolding host_name
make_domain t name port = record {
  name = host_name name;
  vm_name = [];
  redirect_to = [];
  redirect_code = 0;
  destination_host = [];
  destination_port = port;
  redirect_to_https = t.redirect_to_https;
  rate_profile = t.rate_profile;
  target_url = [];
  chained = false;
}

unfoldable pub with_port : TomlVmConfig → Str → Option ℤ → Outcome ConfigError Domain
with_port t name none = err ConfigError.bad_domain_port
with_port t name (some port) = ok (make_domain t name port)

-- A `domains` line: `host` or `host->port`.
unfoldable pub domain_of : TomlVmConfig → List Str → Outcome ConfigError Domain
domain_of t [] = err ConfigError.bad_domain
domain_of t (name ∷ []) = ok (make_domain t name (pos 80))
domain_of t (name ∷ port ∷ []) = with_port t name (atoi_int (trim_space port))
domain_of t (_ ∷ _ ∷ _ ∷ _) = err ConfigError.bad_domain

unfoldable pub domains_of : TomlVmConfig → List Str → Outcome ConfigError (List Domain)
domains_of t [] = ok []
domains_of t (line ∷ lines) = domain_of t (split_pair b'-' b'>' line) >>= λ domain.
    domains_of t lines >>= λ domains. ok (domain ∷ domains)

-- 301, 302, 307 and 308
unfoldable pub is_redirect_code : ℕ → Bool
is_redirect_code n = eqb n 301 || eqb n 302 || eqb n 307 || eqb n 308

unfoldable pub redirect_code : Option ℤ → Outcome ConfigError ℕ
redirect_code none = err ConfigError.bad_code
redirect_code (some (negsuc n)) = err ConfigError.unsupported_code
redirect_code (some (pos n)) = if is_redirect_code n then ok n else err ConfigError.unsupported_code

unfoldable pub redirect_domain : Str → Str → ℕ → Domain
redirect_domain from dest status = record {
  name = from;
  vm_name = [];
  redirect_to = dest;
  redirect_code = status;
  destination_host = [];
  destination_port = pos 0;
  redirect_to_https = false;
  rate_profile = [];
  target_url = [];
  chained = false;
}

unfoldable pub make_redirect : List Str → Str → Str → ℕ → Outcome ConfigError Domain
unfolding redirect_domain
make_redirect domain_list from dest status =
    if any (λ d. d == dest) domain_list
    then ok (redirect_domain from dest status)
    else err ConfigError.foreign_target

-- A `redirects` line, 302 being the default code.
unfoldable pub redirect_of : List Str → List Str → Outcome ConfigError Domain
unfolding host_name
redirect_of domain_list [] = err ConfigError.bad_redirect
redirect_of domain_list (_ ∷ []) = err ConfigError.bad_redirect
redirect_of domain_list (from ∷ dest ∷ []) =
    make_redirect domain_list (host_name from) (host_name dest) 302
redirect_of domain_list (from ∷ dest ∷ code ∷ []) =
    redirect_code (atoi_int code) >>= make_redirect domain_list (host_name from) (host_name dest)
redirect_of domain_list (_ ∷ _ ∷ _ ∷ _ ∷ _) = err ConfigError.bad_redirect

unfoldable pub redirects_of : List Str → List (List Str) → Outcome ConfigError (List Domain)
redirects_of domain_list [] = ok []
redirects_of domain_list (line ∷ lines) = redirect_of domain_list line >>= λ domain.
    redirects_of domain_list lines >>= λ domains. ok (domain ∷ domains)

-- "check for duplicated domain"
unfoldable pub check_duplicates : List Domain → Map Str Bool → Outcome ConfigError Unit
check_duplicates [] seen = ok tt
check_duplicates (d ∷ ds) seen =
    let rest = check_duplicates ds (put d.name true seen) in
    if has d.name seen then err ConfigError.duplicated_domain else rest

abbrev pub domain_names : List Domain → List Str
domain_names = map (λ d. d.name)

-- `vmConfig.Domains`
unfoldable pub all_domains : TomlVmConfig → Outcome ConfigError (List Domain)
all_domains t = domains_of t t.domains >>= λ own.
    redirects_of (domain_names own) t.redirects >>= λ redirects.
    check_duplicates (own ++ redirects) [] >>= λ _. ok (own ++ redirects)

first_label : List Str → Str
first_label [] = []
first_label (w ∷ ws) = w

unfoldable pub default_hostname : List Domain → Str
unfolding first_label
default_hostname [] = lit "localhost.localdomain"
default_hostname (d ∷ ds) = first_label (split b'.' d.name) ++ lit ".localdomain"

unfoldable pub hostname_of : Str → List Domain → Str
hostname_of hostname domains = if is_nil hostname then default_hostname domains else hostname
