-- ===== src/Proxy/Domains.antt =====
-- domain_database.go of the proxy: the routes by domain name, with those of the children of a chain.
-- net/url is a parameter: `hostname` is `url.ParseRequestURI` followed by `Hostname`, `none` being a
-- string that does not parse.
pub mod Replace
pub mod Conflicts
mod Tests
use mulch.Prelude.{
  ℕ, Bool, true, false, not, ◌&&◌, Option, none, some, List, [], ◌∷◌, if◌then◌else◌, ◌==◌, length,
}
use mulch.Text.Decimal.{pos}
use mulch.Text.{Str, str_eq}
use mulch.GoMap.{Map, get, has, put, keys, values}
use mulch.Disk.{Io, write_file, succeeded}
use mulch.Domain.{Domain, ProxyChainDomain, ProxyChainConflictingDomain}

pub data DomainError : Type 0 where
  open_failed decode_failed save_failed not_found : DomainError

-- `file` is the content of the database's file.
pub record DomainDatabase : Type 0 where
  pub db : Map Str Domain
  pub file : Option (Map Str Domain)

unfoldable pub decoded :
    DomainDatabase → Option (Map Str Domain) → DomainDatabase × Option DomainError
decoded d none = (record d { db = [] }, some DomainError.decode_failed)
decoded d (some m) = (record d { db = m }, none)

-- `load` (and `Reload`): `opens` tells if the file could be opened.
unfoldable pub load : Bool → DomainDatabase → DomainDatabase × Option DomainError
load opens d = if opens then decoded d d.file else (d, some DomainError.open_failed)

-- `save`
unfoldable pub save : Io → DomainDatabase → DomainDatabase × Option DomainError
save io d = (
  record d { file = write_file io d.db d.file },
  (if succeeded io then none else some DomainError.save_failed),
)

load_saved : Bool → DomainDatabase × Option DomainError → Option DomainDatabase
load_saved opens (d, some e) = none
load_saved opens (d, none) = elim (load opens d).1 [ none ↦ some (load opens d).0 | some e ↦ none ]

-- `NewDomainDatabase`: `exists` is `common.PathExist`.
unfoldable pub new_domain_database :
    Bool → Bool → Io → Bool → Option (Map Str Domain) → Option DomainDatabase
unfolding load_saved
new_domain_database auto_create exists io opens file =
    let d : DomainDatabase = record { db = []; file = file } in
    load_saved opens (if auto_create && not exists then save io d else (d, none))

-- `GetDomainsNames`
unfoldable pub get_domains_names : DomainDatabase → List Str
get_domains_names d = keys d.db

chain_domains : List Domain → List ProxyChainDomain
chain_domains [] = []
chain_domains (d ∷ ds) =
    record { domain = d.name; rate_profile = d.rate_profile } ∷ chain_domains ds

-- `GetProxyChainDomains`
unfoldable pub get_proxy_chain_domains : DomainDatabase → List ProxyChainDomain
unfolding chain_domains
get_proxy_chain_domains d = chain_domains (values d.db)

-- `GetByName`
unfoldable pub get_by_name : Str → DomainDatabase → Option Domain
get_by_name name d = get name d.db

-- `Count`
unfoldable pub count : DomainDatabase → ℕ
count d = length d.db

-- The routes that `forward_to` had announced.
unfoldable pub is_chained_to : Str → Domain → Bool
is_chained_to forward_to d = d.chained && (d.target_url == forward_to)

unfoldable pub delete_chained : Str → Map Str Domain → Map Str Domain
delete_chained forward_to [] = []
delete_chained forward_to ((key, d) ∷ m) =
    let rest = delete_chained forward_to m in
    if is_chained_to forward_to d then rest else (key, d) ∷ rest

unfoldable pub chained_domain : Str → ProxyChainDomain → Domain
chained_domain forward_to p = record {
  name = p.domain;
  vm_name = [];
  redirect_to = [];
  redirect_code = 0;
  destination_host = [];
  destination_port = pos 0;
  redirect_to_https = false;
  rate_profile = p.rate_profile;
  target_url = forward_to;
  chained = true;
}

unfoldable pub add_chained : Str → List ProxyChainDomain → Map Str Domain → Map Str Domain
add_chained forward_to [] m = m
add_chained forward_to (p ∷ ps) m =
    add_chained forward_to ps (put p.domain (chained_domain forward_to p) m)

-- `ReplaceChainedDomains`
unfoldable pub replace_chained_domains :
    Io → List ProxyChainDomain → Str → DomainDatabase → DomainDatabase × Option DomainError
replace_chained_domains io domains forward_to d =
    save io (record d { db = add_chained forward_to domains (delete_chained forward_to d.db) })

module _ (hostname : Str → Option Str) where
  -- What one requested domain adds to the conflicts.
  unfoldable pub owned : Str → Domain → Option Str → Option ProxyChainConflictingDomain
  owned child d none = none
  owned child d (some host) =
      if host == child then none else some (record { domain = d.name; owner = host })

  unfoldable pub conflict_of : Str → Option Domain → Option ProxyChainConflictingDomain
  conflict_of child none = none
  conflict_of child (some d) = owned child d (hostname d.target_url)

  unfoldable pub add_conflict :
      Option ProxyChainConflictingDomain
      → List ProxyChainConflictingDomain
      → List ProxyChainConflictingDomain
  add_conflict none cs = cs
  add_conflict (some c) cs = c ∷ cs

  unfoldable pub conflicts_with : Str → List Str → DomainDatabase → List ProxyChainConflictingDomain
  conflicts_with child [] d = []
  conflicts_with child (name ∷ names) d =
      add_conflict (conflict_of child (get_by_name name d)) (conflicts_with child names d)

  -- `GetConflictingDomains`
  unfoldable pub get_conflicting_domains :
      List Str → Str → DomainDatabase → List ProxyChainConflictingDomain
  get_conflicting_domains names child_url d = elim (hostname child_url) [
    | none ↦ []
    | some child ↦ conflicts_with child names d
  ]

unfoldable pub children_of : Map Str Domain → Map Str Bool
children_of [] = []
children_of ((key, d) ∷ m) =
    let rest = children_of m in if d.chained then put d.target_url true rest else rest

-- `GetChildren`
unfoldable pub get_children : DomainDatabase → List Str
get_children d = keys (children_of d.db)
