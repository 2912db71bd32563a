-- ===== src/Proxy/Domains/Conflicts.antt =====
-- What `GetConflictingDomains` rules out for a following `ReplaceChainedDomains`, and `GetChildren`.
use mulch.Prelude.{
  ◌≡◌, refl, ◌||◌, Option-cases, inl, inr, Bool, true, false, Option, none, some, List, [], ◌∷◌,
  arith, any, ◌==◌,
}
use mulch.Text.{Str, str_eq, str_beq_iff}
use mulch.GoMap.{Map, put, keys}
use mulch.GoMap.Laws.{IsMap}
use mulch.Disk.{Io}
use mulch.Domain.{Domain, ProxyChainDomain, get_domain_names}
use mulch.Proxy.Domains.{
  DomainDatabase, get_by_name, is_chained_to, owned, conflict_of, add_conflict, conflicts_with,
  get_conflicting_domains, replace_chained_domains, children_of, get_children,
}
use mulch.Proxy.Domains.Replace.{announced, kept, routed_by, replace_chained_domains_lem}

module _ (hostname : Str → Option Str) where
  -- No requested name has a route to a host that is not the child's.
  conflicts_with-none :
      (child n : Str) (ps : List ProxyChainDomain) (d : DomainDatabase) (p : ProxyChainDomain)
      → conflicts_with hostname child (get_domain_names ps) d ≡ []
      → announced n ps ≡ some p
      → conflict_of hostname child (get_by_name n d) ≡ none
  unfolding conflicts_with get_domain_names announced add_conflict
  conflicts_with-none child n [] d p free h = ground arith
  conflicts_with-none child n (q ∷ ps) d p free h =
      ground (arith, conflicts_with-none child n ps d p, str_beq_iff q.domain n)

  -- If `GetConflictingDomains` finds nothing against a child, the child's `ReplaceChainedDomains`
  -- leaves every route to another host as it was, provided that the URL announced is the child's.
  replace_chained_domains-no_conflict :
      (io : Io) (ps : List ProxyChainDomain) (url child n host : Str) (d : DomainDatabase)
      (r : Domain)
      → IsMap d.db
      → hostname url ≡ some child
      → get_conflicting_domains hostname (get_domain_names ps) url d ≡ []
      → get_by_name n d ≡ some r
      → hostname r.target_url ≡ some host
      → (host == child) ≡ false
      → get_by_name n (replace_chained_domains io ps url d).0 ≡ some r
  unfolding get_conflicting_domains conflict_of owned kept routed_by is_chained_to
  replace_chained_domains-no_conflict io ps url child n host d r m hu free hr hh ne =
      elim (Option-cases (announced n ps)) [
        | inl e ↦ ground (
          arith,
          replace_chained_domains_lem io ps url n d m,
          str_beq_iff r.target_url url,
          str_beq_iff host child,
        )
        | inr (p, e) ↦ ground (arith, conflicts_with-none child n ps d p)
      ]

any-keys-put :
    (url k : Str) (m : Map Str Bool)
    → any (λ u. u == url) (keys (put k true m)) ≡ ((k == url) || any (λ u. u == url) (keys m))
unfolding keys put
any-keys-put url k [] = ground arith
any-keys-put url k ((j, b) ∷ m) = ground (arith, any-keys-put url k m, str_beq_iff j k)

any-children_of :
    (url : Str) (m : Map Str Domain)
    → any (λ u. u == url) (keys (children_of m)) ≡ any (λ e. is_chained_to url e.1) m
unfolding children_of is_chained_to keys
any-children_of url [] = refl
any-children_of url ((k, d) ∷ m) =
    ground (arith, any-children_of url m, any-keys-put url d.target_url (children_of m))

-- `GetChildren` lists a URL exactly when some chained route of the database goes to it.
get_children_lem :
    (url : Str) (d : DomainDatabase)
    → any (λ u. u == url) (get_children d) ≡ any (λ e. is_chained_to url e.1) d.db
unfolding get_children
get_children_lem url d = any-children_of url d.db
