-- ===== src/VmDatabase/Conflicts.antt =====
-- `CheckDomainsConflicts` of cmd/mulchd/server/domains.go and `CheckPortsConflicts` of vm_port.go:
-- what an active machine may not take from the active machines of other names.
use mulch.Prelude.{
  Bool, true, false, not, ◌&&◌, Option, none, some, List, [], ◌∷◌, map, any, if◌then◌else◌, ◌==◌,
  Outcome, ok, err, panic, ◌>>=◌,
}
use mulch.GoMap
use mulch.GoMap.{Map}
use mulch.Text.{Str, str_eq}
use mulch.Text.Words.{is_nil}
use mulch.Domain.{Domain}
use mulch.VmName.{VmName}
use mulch.VmPort.{VmPort, exported, is_import, global_id}
use mulch.Vm.{Vm, VmEntry}
use mulch.VmDatabase.{
  VmDatabase, VmdbError, Host, not_found, domain_conflict, parent_conflict, port_conflict, own_port,
}
use mulch.VmDatabase.Lookups.{get_names, get_entry_by_name}

-- The head of both loops over the names: the name excluded (if not empty), the lookup by id, and
-- the inactive entries. `add` fills the map from one active entry.
visit :
    Str
    → (VmEntry → Map Str Vm → Map Str Vm)
    → VmName
    → Option VmEntry
    → Map Str Vm
    → Outcome VmdbError (Map Str Vm)
visit exclude add n o out =
    if not (is_nil exclude) && n.name == exclude
    then ok out
    else elim o [ none ↦ err not_found | some e ↦ if e.active then ok (add e out) else ok out ]

unfoldable pub visit_active :
    Str
    → (VmEntry → Map Str Vm → Map Str Vm)
    → List VmName
    → VmDatabase
    → Map Str Vm
    → Outcome VmdbError (Map Str Vm)
unfolding visit
visit_active exclude add [] d out = ok out
visit_active exclude add (n ∷ ns) d out = do
  out' ← visit exclude add n (get_entry_by_name n d) out
  visit_active exclude add ns d out'

unfoldable pub add_domains : Vm → List Domain → Map Str Vm → Map Str Vm
add_domains vm [] out = out
add_domains vm (x ∷ xs) out = add_domains vm xs (GoMap.put x.name vm out)

unfoldable pub domain_taken : List Domain → Map Str Vm → Bool
domain_taken [] out = false
domain_taken (x ∷ xs) out = if GoMap.has x.name out then true else domain_taken xs out

ask : Option (List Str → Bool) → List Domain → Option VmdbError
ask none domains = none
ask (some accepts) domains =
    if accepts (map (λ x. x.name) domains) then none else some parent_conflict

domains_verdict : Host → List Domain → Outcome VmdbError (Map Str Vm) → Option VmdbError
domains_verdict h domains (err e) = some e
domains_verdict h domains panic = some domain_conflict
domains_verdict h domains (ok taken) =
    if domain_taken domains taken then some domain_conflict else ask h.ask_parent domains

-- `CheckDomainsConflicts`; `none` is nil
unfoldable pub check_domains_conflicts : Host → List Domain → Str → VmDatabase → Option VmdbError
unfolding domains_verdict ask
check_domains_conflicts h domains exclude d =
    domains_verdict h domains
      (visit_active exclude (λ e out. add_domains e.vm e.vm.config.domains out) (get_names d) d [])

unfoldable pub add_exported : Vm → List VmPort → Map Str Vm → Map Str Vm
add_exported vm [] out = out
add_exported vm (p ∷ ps) out =
    add_exported vm ps (if is_import p.direction then out else GoMap.put (global_id p) vm out)

-- One port of the list against the exports of the others and, for an import, against the list.
port_verdict : List VmPort → Map Str Vm → VmPort → Option VmdbError
port_verdict ports taken p =
    if is_import p.direction
    then (if any (λ q. global_id q == global_id (record p { direction = exported })) ports
        then some own_port
        else none)
    else if GoMap.has (global_id p) taken
    then some port_conflict
    else none

unfoldable pub ports_loop : List VmPort → List VmPort → Map Str Vm → Option VmdbError
unfolding port_verdict
ports_loop all [] taken = none
ports_loop all (p ∷ ps) taken = elim (port_verdict all taken p) [
  | none ↦ ports_loop all ps taken
  | some e ↦ some e
]

ports_verdict : List VmPort → Outcome VmdbError (Map Str Vm) → Option VmdbError
ports_verdict ports (err e) = some e
ports_verdict ports panic = some port_conflict
ports_verdict ports (ok taken) = ports_loop ports ports taken

-- `CheckPortsConflicts`, without a log; `none` is nil
unfoldable pub check_ports_conflicts : List VmPort → Str → VmDatabase → Option VmdbError
unfolding ports_verdict
check_ports_conflicts ports exclude d =
    ports_verdict ports
      (visit_active exclude (λ e out. add_exported e.vm e.vm.config.ports out) (get_names d) d [])
