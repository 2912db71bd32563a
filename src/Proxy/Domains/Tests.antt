-- ===== src/Proxy/Domains/Tests.antt =====
-- Runs of the route database on a small example, and the theorems about it there.
use mulch.Prelude.{◌≡◌, List, ◌∷◌, [], refl, none, some, Option}
use mulch.GoMap
use mulch.GoMap.Laws.{IsMap}
use mulch.Text.{Str, lit, str_eq, str_beq}
use mulch.Disk.{Io}
use mulch.Domain.{Domain, ProxyChainDomain}
use mulch.Proxy.Domains.{DomainDatabase, get_by_name, replace_chained_domains, save, chained_domain}
use mulch.Proxy.Domains.Replace.{announced, kept, routed_by, replace_chained_domains_lem}

abbrev child_url : Str
child_url = lit "http://b"

abbrev other_route : Domain
other_route = chained_domain (lit "http://a") (record { domain = lit "a.org"; rate_profile = [] })

abbrev old_route : Domain
old_route = chained_domain child_url (record { domain = lit "old.org"; rate_profile = [] })

abbrev routes : DomainDatabase
routes = record { db = (lit "a.org", other_route) ∷ (lit "old.org", old_route) ∷ []; file = none }

abbrev announcement : List ProxyChainDomain
announcement = record { domain = lit "new.org"; rate_profile = [] } ∷ []

-- The host is what stands behind "http://".
abbrev host_of : Str → Option Str
host_of (h ∷ t ∷ u ∷ p ∷ c ∷ s ∷ r ∷ host) = some host
host_of _ = none

unique_routes : IsMap routes.db
unfolding GoMap.get str_beq
unique_routes = (refl, (refl, tt))

replace_saved : (replace_chained_domains Io.done announcement child_url routes).1 ≡ none
unfolding replace_chained_domains save
replace_saved = refl

replace_chained_domains_example :
    let d' = (replace_chained_domains Io.write_failed announcement child_url routes).0 in
    (get_by_name (lit "old.org") d'
      ≡ routed_by child_url
          (announced (lit "old.org") announcement)
          (kept child_url (get_by_name (lit "old.org") routes)))
    × IsMap d'.db
replace_chained_domains_example =
    replace_chained_domains_lem Io.write_failed announcement child_url (lit "old.org") routes
      unique_routes
