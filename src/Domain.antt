-- ===== src/Domain.antt =====
-- common/domain.go and common/proxy_chain_domains.go: a route of the reverse proxy, and what the
-- proxies of a chain tell each other. The proxy's own `ReverseProxy` handle is not part of it.
use mulch.Prelude.{ℕ, Bool, List, map}
use mulch.Text.{Str}
use mulch.Text.Decimal.{ℤ}

pub record Domain : Type 0 where
  pub name : Str
  pub vm_name : Str
  pub redirect_to : Str
  pub redirect_code : ℕ
  pub destination_host : Str
  pub destination_port : ℤ
  pub redirect_to_https : Bool
  pub rate_profile : Str
  pub target_url : Str
  pub chained : Bool

pub record ProxyChainDomain : Type 0 where
  pub domain : Str
  pub rate_profile : Str

pub record ProxyChainConflictingDomain : Type 0 where
  pub domain : Str
  pub owner : Str

-- `GetDomainNames`
unfoldable pub get_domain_names : List ProxyChainDomain → List Str
get_domain_names = map (λ d. d.domain)
