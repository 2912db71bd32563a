-- ===== src/Dhcp/Tests.antt =====
-- A network with the lease of a machine that is gone, and a libvirt that does what it is asked.
use mulch.Prelude.{
  ◌≡◌, refl, true, false, not, ◌&&◌, ◌||◌, Option, none, some, List, [], ◌∷◌, ◌++◌, filter, arith,
  if◌then◌else◌, ap, sym, ◌∙◌,
}
use mulch.GoMap.{get, has}
use mulch.Text.{Str, lit, str_eq, str_beq, str_beq_iff}
use mulch.Text.Words.{starts_with, is_valid_name}
use mulch.VmName.{VmName, id, libvirt_domain_name}
use mulch.Vm.Samples.{plain_config}
use mulch.Vm.{Vm}
use mulch.VmDatabase.{VmDatabase}
use mulch.VmDatabase.Lookups.{get_names, names_of, get_by_name}
use mulch.VmDatabase.Invariant.{Db, active_count, IsConsistent}
use mulch.Dhcp.{
  DhcpHost, has_host, vm_host, add_host, missing_machines, updated, update_network,
  rebuild_dhcp_static_leases,
}
use mulch.Dhcp.Leases.{is_machine, has_lease, has_host-append, rebuild_dhcp_static_leases_lem}

abbrev only : VmName
only = record { name = lit "b"; revision = 0 }

abbrev only_vm : Vm
only_vm = record {
  address = 1;
  secret_uuid = [];
  config = plain_config (lit "b");
  author_key = [];
  init_date = 0;
  last_ip = [];
  locked = false;
  wip = [];
  assigned_mac = lit "02:00";
  assigned_ipv4 = lit "10.0.0.2";
}

abbrev one_machine : Db
one_machine = (lit "b", record { name = only; vm = only_vm; active = true }) ∷ []

abbrev database : VmDatabase
database = record {
  db = one_machine;
  greenhouse = [];
  file = none;
  domain_file = none;
  port_file = none;
  updates = 0;
}

abbrev host_of : Str → DhcpHost
host_of name = record { name = name; mac = []; ip = [] }

-- A lease of ours that is stale, and one of another.
abbrev before : List DhcpHost
before = host_of (lit "m-a") ∷ host_of (lit "x") ∷ []

abbrev obedient : List DhcpHost → List DhcpHost → List DhcpHost → Option (List DhcpHost)
obedient hosts deleted added = some (filter (λ h. not (has_host h.name deleted)) hosts ++ added)

has_host-kept :
    (hosts deleted : List DhcpHost) (j : Str)
    → has_host j (filter (λ h. not (has_host h.name deleted)) hosts)
      ≡ (has_host j hosts && not (has_host j deleted))
has_host-kept [] deleted j = refl
has_host-kept (h ∷ hosts) deleted j =
    ground (arith, has_host-kept hosts deleted j, str_beq_iff h.name j)

some-list : {xs ys : List DhcpHost} → some xs ≡ some ys → xs ≡ ys
some-list e = ground (arith, e)

obedient_lem :
    (hosts deleted added hosts' : List DhcpHost) (j : Str)
    → obedient hosts deleted added ≡ some hosts'
    → has_host j hosts' ≡ ((has_host j hosts && not (has_host j deleted)) || has_host j added)
obedient_lem hosts deleted added hosts' j e =
    ap (has_host j) (sym (some-list e))
    ∙ has_host-append j (filter (λ h. not (has_host h.name deleted)) hosts) added
    ∙ ap (λ b. b || has_host j added) (has_host-kept hosts deleted j)

one_machine-IsConsistent : IsConsistent one_machine
unfolding get str_beq active_count id is_valid_name
one_machine-IsConsistent = record {
  is_map = (refl, tt);
  keyed = (refl, record { valid = refl; some_char = refl; small = omega arith }, tt);
  single = λ n. ground arith;
}

rebuilds :
    (rebuild_dhcp_static_leases (lit "m-") database (obedient before) true before []).1 ≡ none
unfolding rebuild_dhcp_static_leases update_network updated missing_machines add_host vm_host
    get_by_name names_of get has str_beq id libvirt_domain_name
rebuilds = refl

rebuild_dhcp_static_leases_example :
    has_host
      (lit "m-b")
      (rebuild_dhcp_static_leases (lit "m-") database (obedient before) true before []).0
    ≡ (if starts_with (lit "m-") (lit "m-b")
        then is_machine (lit "m-") (lit "m-b") (get_names database) || has_lease (lit "m-b") []
        else has_host (lit "m-b") before || has_lease (lit "m-b") [])
rebuild_dhcp_static_leases_example =
    rebuild_dhcp_static_leases_lem (lit "m-") database (obedient before) true before [] (lit "m-b")
      one_machine-IsConsistent (obedient_lem before) rebuilds
