-- ===== src/VmDatabase/Tests.antt =====
-- Runs of the database of machines on a small example, and the theorems about it there.
use mulch.Prelude.{◌≡◌, ◌≤◌, ℕ, ◌∷◌, [], refl, none, some, true, false, arith, Bool}
use mulch.GoMap
use mulch.GoMap.{Map}
use mulch.Domain.{Domain}
use mulch.VmDatabase.Routes.{AllRouted, save-AllRouted}
use mulch.Text.{Str, lit, str_eq, str_beq}
use mulch.Text.Words.{is_valid_name}
use mulch.Text.Decimal.{itoa, digits, pos}
use mulch.Disk.{Io}
use mulch.VmName.{VmName, id, IsVmName}
use mulch.Vm.Samples.{plain_config}
use mulch.Vm.{Vm, VmEntry}
use mulch.VmDatabase.{VmDatabase, Host, save}
use mulch.VmDatabase.GenDomains.{gen_domains, gen_entry, gen_entry_domains, with_domains}
use mulch.VmDatabase.GenPorts.{
  gen_ports, gen_imports, gen_publics, each_port, export_map, add_exports,
}
use mulch.VmDatabase.Lookups.{get_by_name, get_active_entry_by_name, count_name, names_of}
use mulch.VmDatabase.Conflicts.{
  visit_active, check_domains_conflicts, check_ports_conflicts, domain_taken, ports_loop,
}
use mulch.VmDatabase.Update.{
  check_conflicts, check_revision, vm_verdict, set_active, set_active_revision, add, delete,
}
use mulch.VmDatabase.Invariant.{Db, active_count, IsConsistent}
use mulch.VmDatabase.Methods.{add-IsConsistent, delete-IsConsistent}
use mulch.VmDatabase.Active.{find_active, found_active, get_active_entry_by_name_lem}
use mulch.VmDatabase.Activate.{get_active-set_active_revision}

abbrev machine : ℕ → Vm
machine a = record {
  address = a;
  secret_uuid = lit "uuid";
  config = plain_config (lit "web");
  author_key = lit "alice";
  init_date = 0;
  last_ip = lit "10.104.0.2";
  locked = false;
  wip = [];
  assigned_mac = [];
  assigned_ipv4 = lit "10.104.0.2";
}

abbrev web : ℕ → VmName
web r = record { name = lit "web"; revision = r }

abbrev web_entry : ℕ → Bool → VmEntry
web_entry r active = record { name = web r; vm = machine r; active = active }

abbrev machines : Db
machines = (lit "web", web_entry 0 true) ∷ (lit "web-r1", web_entry 1 false) ∷ []

abbrev database : VmDatabase
database = record {
  db = machines;
  greenhouse = [];
  file = none;
  domain_file = none;
  port_file = none;
  updates = 0;
}

abbrev host : Host
host = record {
  db_io = Io.done;
  domain_io = Io.done;
  port_io = Io.done;
  net = record { resolve = λ s. some (record { ip = s; port = 0 }); gateway = lit "10.104.0.1" };
  ask_parent = none;
}

web-IsVmName : (r : ℕ) → r ≤ 5 → IsVmName (web r)
unfolding is_valid_name
web-IsVmName r h = record { valid = refl; some_char = refl; small = omega (arith, h) }

id_web0 : id (web 0) ≡ lit "web"
unfolding id
id_web0 = refl

id_web1 : id (web 1) ≡ lit "web-r1"
unfolding id itoa digits
id_web1 = refl

machines-IsConsistent : IsConsistent machines
unfolding GoMap.get str_beq active_count
machines-IsConsistent = record {
  is_map = (refl, (refl, tt));
  keyed = (id_web0, web-IsVmName 0 (omega arith), (id_web1, web-IsVmName 1 (omega arith), tt));
  single = λ n. ground arith;
}

activate_web1 : (set_active_revision host (lit "web") (some 1) database).1 ≡ none
unfolding set_active_revision check_revision vm_verdict check_conflicts check_domains_conflicts
    check_ports_conflicts visit_active domain_taken ports_loop get_by_name GoMap.get str_beq id itoa
    digits set_active save gen_domains gen_entry gen_entry_domains with_domains gen_ports
    gen_imports gen_publics each_port export_map add_exports names_of GoMap.values
activate_web1 = refl

deactivate_web : (set_active_revision host (lit "web") none database).1 ≡ none
unfolding set_active_revision check_revision count_name str_beq set_active save gen_domains
    gen_entry gen_entry_domains with_domains gen_ports gen_imports gen_publics each_port export_map
    add_exports GoMap.values
deactivate_web = refl

get_active-set_active_revision_example :
    (e : VmEntry) × (get_active_entry_by_name
        (lit "web")
        (set_active_revision host (lit "web") (some 1) database).0
      ≡ some (some e))
    × (e.name ≡ web 1)
get_active-set_active_revision_example =
    get_active-set_active_revision host (web 1) database (web-IsVmName 1 (omega arith))
      machines-IsConsistent activate_web1

add-IsConsistent_example : IsConsistent (add host (machine 3) (web 2) true database).0.db
add-IsConsistent_example =
    add-IsConsistent host (machine 3) (web 2) true database (web-IsVmName 2 (omega arith))
      machines-IsConsistent

delete-IsConsistent_example : IsConsistent (delete host host (web 0) database).0.db
delete-IsConsistent_example = delete-IsConsistent host host (web 0) database machines-IsConsistent

get_active_entry_by_name_example :
    get_active_entry_by_name (lit "web") database ≡ found_active (find_active (lit "web") machines)
get_active_entry_by_name_example =
    get_active_entry_by_name_lem (lit "web") database machines-IsConsistent

abbrev site : Domain
site = record {
  name = lit "example.org";
  vm_name = [];
  redirect_to = [];
  redirect_code = 0;
  destination_host = [];
  destination_port = pos 80;
  redirect_to_https = false;
  rate_profile = [];
  target_url = [];
  chained = false;
}

abbrev site_machine : Vm
site_machine = record (machine 4) { config = record (machine 4).config { domains = site ∷ [] } }

abbrev site_database : VmDatabase
site_database = record database {
  db = (lit "web", record { name = web 0; vm = site_machine; active = true }) ∷ [];
}

save_site : (save host site_database).1 ≡ none
unfolding save gen_domains gen_entry gen_entry_domains with_domains GoMap.has GoMap.values gen_ports
    gen_imports gen_publics each_port export_map add_exports
save_site = refl

save-AllRouted_example :
    (out : Map Str Domain) × ((save host site_database).0.domain_file ≡ some out)
    × AllRouted out site_database.db
save-AllRouted_example = save-AllRouted host site_database save_site
