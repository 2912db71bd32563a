-- ===== src/VmDatabase/GenDomains.antt =====
-- `genDomainsDB` of cmd/mulchd/server/vm_database.go. It writes to the domains of the machines, so
-- the entries come back beside the generated map; `none` stands for the error of a duplicate.
use mulch.Prelude.{Option, none, some, List, [], ◌∷◌, if◌then◌else◌}
use mulch.GoMap
use mulch.GoMap.{Map}
use mulch.Text.{Str, str_eq}
use mulch.Text.Words.{is_nil}
use mulch.VmName.{id}
use mulch.Domain.{Domain}
use mulch.Vm.{VmEntry}

-- The two assignments at the head of the inner loop.
unfoldable pub routed : VmEntry → Domain → Domain
routed e d = record d {
  vm_name = id e.name;
  destination_host = if is_nil d.redirect_to then e.vm.last_ip else d.destination_host;
}

unfoldable pub gen_entry_domains :
    VmEntry → List Domain → Map Str Domain → List Domain × Option (Map Str Domain)
unfolding routed
gen_entry_domains e [] out = ([], some out)
gen_entry_domains e (d ∷ ds) out =
    let d' = routed e d in
    let (ds', r) = gen_entry_domains e ds (GoMap.put d'.name d' out) in
    if GoMap.has d'.name out then (d' ∷ ds, none) else (d' ∷ ds', r)

unfoldable pub with_domains : VmEntry → List Domain → VmEntry
with_domains e ds = record e { vm = record e.vm { config = record e.vm.config { domains = ds } } }

-- One machine; after an error (`none`) the loops have been left.
unfoldable pub gen_entry : VmEntry → Option (Map Str Domain) → VmEntry × Option (Map Str Domain)
unfolding gen_entry_domains with_domains
gen_entry e none = (e, none)
gen_entry e (some out) =
    let (ds, r) = gen_entry_domains e e.vm.config.domains out in
    if e.active then (with_domains e ds, r) else (e, some out)

unfoldable pub gen_domains :
    Map Str VmEntry → Option (Map Str Domain) → Map Str VmEntry × Option (Map Str Domain)
gen_domains [] o = ([], o)
gen_domains ((k, e) ∷ m) o =
    let (e', o') = gen_entry e o in let (m', r) = gen_domains m o' in ((k, e') ∷ m', r)
