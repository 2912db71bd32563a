-- ===== src/Proxy/Domains/Replace.antt =====
-- What `ReplaceChainedDomains` does to the route of each name.
use mulch.Prelude.{
  ◌&&◌, false, ◌≡◌, refl, true, Option, none, some, List, [], ◌∷◌, arith, if◌then◌else◌, ◌==◌,
}
use mulch.Text.{Str, str_eq, str_beq_iff}
use mulch.Text.Decimal.{pos}
use mulch.GoMap.{Map, get, put}
use mulch.GoMap.Laws.{IsMap, get-put, put-IsMap}
use mulch.Disk.{Io}
use mulch.Domain.{Domain, ProxyChainDomain}
use mulch.Proxy.Domains.{
  DomainDatabase, get_by_name, is_chained_to, delete_chained, chained_domain, add_chained,
  replace_chained_domains, load, save, decoded,
}

-- The last announcement of a name.
unfoldable pub announced : Str → List ProxyChainDomain → Option ProxyChainDomain
announced name [] = none
announced name (p ∷ ps) = elim (announced name ps) [
  | some q ↦ some q
  | none ↦ (if p.domain == name then some p else none)
]

-- A route, unless `forward_to` had announced it.
unfoldable pub kept : Str → Option Domain → Option Domain
kept forward_to none = none
kept forward_to (some d) = if d.chained && (d.target_url == forward_to) then none else some d

-- The route to a child for a name that it has announced.
abbrev pub route_of : Str → ProxyChainDomain → Domain
route_of forward_to p = record {
  name = p.domain;
  vm_name = [];
  redirect_to = [];
  redirect_code = 0;
  destination_host = [];
  destination_port = pos 0;
  redirect_to_https = false;
  rate_profile = p.rate_profile;
  target_url = forward_to;
  chained = true;
}

chained_domain-route_of : (t : Str) (p : ProxyChainDomain) → chained_domain t p ≡ route_of t p
unfolding chained_domain
chained_domain-route_of t p = refl

-- The route of a name afterwards.
unfoldable pub routed_by : Str → Option ProxyChainDomain → Option Domain → Option Domain
routed_by forward_to (some p) old = some (route_of forward_to p)
routed_by forward_to none old = old

delete_chained-absent :
    (t n : Str) (m : Map Str Domain) → get n m ≡ none → get n (delete_chained t m) ≡ none
unfolding get delete_chained
delete_chained-absent t n [] h = refl
delete_chained-absent t n ((k, d) ∷ m) h =
    ground (arith, delete_chained-absent t n m, str_beq_iff k n)

get-delete_chained :
    (t n : Str) (m : Map Str Domain) → IsMap m → get n (delete_chained t m) ≡ kept t (get n m)
unfolding get delete_chained kept is_chained_to
get-delete_chained t n [] h = refl
get-delete_chained t n ((k, d) ∷ m) h =
    ground (arith, h, get-delete_chained t n m, delete_chained-absent t n m, str_beq_iff k n)

pub delete_chained-IsMap : (t : Str) (m : Map Str Domain) → IsMap m → IsMap (delete_chained t m)
unfolding delete_chained
delete_chained-IsMap t [] h = tt
delete_chained-IsMap t ((k, d) ∷ m) h =
    ground (arith, delete_chained-IsMap t m, delete_chained-absent t k m)

get-add_chained :
    (t n : Str) (ps : List ProxyChainDomain) (m : Map Str Domain)
    → get n (add_chained t ps m) ≡ routed_by t (announced n ps) (get n m)
unfolding add_chained announced routed_by
get-add_chained t n [] m = refl
get-add_chained t n (p ∷ ps) m = ground (
  arith,
  get-add_chained t n ps (put p.domain (chained_domain t p) m),
  get-put p.domain n (chained_domain t p) m,
  chained_domain-route_of t p,
)

add_chained-IsMap :
    (t : Str) (ps : List ProxyChainDomain) (m : Map Str Domain)
    → IsMap m
    → IsMap (add_chained t ps m)
unfolding add_chained
add_chained-IsMap t [] m h = h
add_chained-IsMap t (p ∷ ps) m h =
    add_chained-IsMap t ps (put p.domain (chained_domain t p) m)
      (put-IsMap p.domain (chained_domain t p) m h)

-- After `ReplaceChainedDomains`, whatever it reports, a name that the child announces has a chained route to the URL of the child, with the rate profile of its last announcement; any other name has the route it had, unless that was a chained route to the same URL, and then it has none. The database holds each name once if it did.
pub replace_chained_domains_lem :
    (io : Io) (ps : List ProxyChainDomain) (t n : Str) (d : DomainDatabase)
    → IsMap d.db
    → let d' = (replace_chained_domains io ps t d).0 in
      (get_by_name n d' ≡ routed_by t (announced n ps) (kept t (get_by_name n d))) × IsMap d'.db
unfolding replace_chained_domains save get_by_name
replace_chained_domains_lem io ps t n d h = (
  ground (arith, get-add_chained t n ps (delete_chained t d.db), get-delete_chained t n d.db h),
  add_chained-IsMap t ps (delete_chained t d.db) (delete_chained-IsMap t d.db h),
)

-- A database that `ReplaceChainedDomains` saved without an error is what `load` reads afterwards.
load-replace_chained_domains :
    (io : Io) (ps : List ProxyChainDomain) (t : Str) (d : DomainDatabase)
    → (replace_chained_domains io ps t d).1 ≡ none
    → let d' = (replace_chained_domains io ps t d).0 in load true d' ≡ (d', none)
unfolding replace_chained_domains save load decoded
load-replace_chained_domains Io.done ps t d h = refl
load-replace_chained_domains Io.open_failed ps t d h = ground arith
load-replace_chained_domains Io.write_failed ps t d h = ground arith
