-- ===== src/Lifecycle/Tests.antt =====
-- Runs of `VMDelete`, `NewVM` and `VMRebuild` on a small world, and the theorems about them there.
use mulch.Prelude.{
  ◌≡◌, ok, ℕ, refl, true, false, none, some, [], ◌∷◌, List, ltb, ◌≤◌, if◌then◌else◌, arith,
}
use mulch.GoMap
use mulch.Text.{Str, lit, str_beq, str_eq}
use mulch.Disk.{Io}
use mulch.VmName.{VmName, id}
use mulch.Vm.{Vm}
use mulch.Vm.Samples.{plain_config}
use mulch.VmDatabase.{Host}
use mulch.Config.Samples.{outside}
use mulch.Text.Decimal.{max_int}
use mulch.Text.Words.{is_valid_name}
use mulch.VmDatabase.Invariant.{IsConsistent, active_count}
use mulch.VmDatabase.GenPorts.{gen_ports}
use mulch.VmDatabase.Lookups.{names_of, get_next_revision, max_revision}
use mulch.Config.Samples.{accepted}
use mulch.Lifecycle.{
  World, Env, cloud_init, running, shutoff, ◌>>=◌, after, call, on_vmdb, vmdb_result,
  rebuild_leases, get_entry, found_entry,
}
use mulch.Lifecycle.Callback.{Reading, empty_action, read_lines}
use mulch.Lifecycle.Delete.{
  vm_delete, delete_unlocked, delete_machine, get_state, force_stop, delete_disk, delete_entry,
  remove_machine,
}
use mulch.VmDatabase.{save}
use mulch.VmDatabase.Update
use mulch.VmDatabase.GenDomains.{gen_domains, gen_entry, gen_entry_domains, with_domains}
use mulch.Dhcp.{missing_machines, rebuild_dhcp_static_leases}
use mulch.Lifecycle.Create.{new_vm}
use mulch.Lifecycle.Rebuild.{vm_rebuild}
use mulch.Lifecycle.Steps.{Ends}
use mulch.Lifecycle.Rollback.{NamesAre, names_before, with_name, new_vm-transaction}
use mulch.Lifecycle.Safe.{IsThere, vm_rebuild-IsThere}
use mulch.Lifecycle.Whole.{vm_rebuild-IsConsistent}
use mulch.Lifecycle.Deleted.{Top, IsGone, vm_delete-IsGone}
use mulch.Lifecycle.Added.{Extends, read_lines-Extends}
use mulch.Lifecycle.Replaced.{IsReplaced, vm_rebuild-replaces}

abbrev machine : Vm
machine = record {
  address = 1;
  secret_uuid = lit "uuid";
  config = plain_config (lit "web");
  author_key = lit "alice";
  init_date = 0;
  last_ip = [];
  locked = false;
  wip = [];
  assigned_mac = [];
  assigned_ipv4 = lit "10.104.0.2";
}

abbrev web : ℕ → VmName
web r = record { name = lit "web"; revision = r }

abbrev host : Host
host = record {
  db_io = Io.done;
  domain_io = Io.done;
  port_io = Io.done;
  net = record { resolve = λ s. some (record { ip = s; port = 0 }); gateway = lit "10.104.0.1" };
  ask_parent = none;
}

-- Every call succeeds; a machine is up at the fourth call at the latest, and is then shut off.
abbrev env : Env
env = record {
  answer = λ n. true;
  state = λ n. if ltb n 5 then running else shutoff;
  disk = λ n. ltb 8 n;
  host = λ n. host;
  io = λ n. Io.done;
  network = λ n deleted added. some [];
  events = λ n. cloud_init (lit "10.104.0.3") ∷ [];
  lines = λ n. [];
  now = λ n. n;
  date = λ n. lit "20240101-000000";
  address = λ n. 2;
  uuid = λ n. lit "uuid2";
  mac = λ n. [];
  ipv4 = λ n. some (lit "10.104.0.3");
  seeds = λ s. some true;
  force_delete = λ n. false;
  prefix = lit "mulch-";
  outside = outside;
}

abbrev world : World
world = record {
  clock = 0;
  vmdb = record {
    db = (lit "web", record { name = web 0; vm = machine; active = true }) ∷ [];
    greenhouse = [];
    file = none;
    domain_file = none;
    port_file = none;
    updates = 0;
  };
  backups = record { db = []; file = none };
  leases = [];
  hosts = [];
  done = [];
}

new_vm-transaction_example :
    Ends
      (NamesAre (names_before world.vmdb))
      (NamesAre (with_name (web 1) world.vmdb))
      (new_vm env accepted false false (lit "bob") world)
unfolding get_next_revision max_revision str_beq
new_vm-transaction_example = new_vm-transaction env accepted false false (lit "bob") world

-- The machine is up, and shut off once it was destroyed; it has a disk.
abbrev stopping : Env
stopping = record env { state = λ n. if ltb n 3 then running else shutoff; disk = λ n. true }

vm_delete_ends : (vm_delete stopping (web 0) world).1 ≡ ok tt
unfolding vm_delete delete_unlocked delete_machine get_state force_stop delete_disk delete_entry
    remove_machine ◌>>=◌ after call on_vmdb vmdb_result rebuild_leases get_entry found_entry
    Update.delete Update.deleting Update.hand_over Update.remove_locked save gen_domains gen_entry
    gen_entry_domains with_domains rebuild_dhcp_static_leases GoMap.get GoMap.has GoMap.put
    GoMap.remove str_beq id Update.highest_other names_of gen_ports GoMap.values missing_machines
vm_delete_ends = refl

vm_delete-IsGone_example :
    let w' = (vm_delete stopping (web 0) world).0 in IsGone (web 0) w'.vmdb w'.done
vm_delete-IsGone_example = vm_delete-IsGone stopping (web 0) world vm_delete_ends

vm_rebuild-replaces_example :
    Ends Top (IsReplaced (web 0) world.vmdb) (vm_rebuild env (web 0) false (lit "bob") world)
vm_rebuild-replaces_example = vm_rebuild-replaces env (web 0) false (lit "bob") world

vm_rebuild-IsThere_example :
    let w' = (vm_rebuild env (web 0) false (lit "bob") world).0 in
    IsThere (lit "web") w'.vmdb w'.done
unfolding GoMap.has str_beq
vm_rebuild-IsThere_example = vm_rebuild-IsThere env (lit "web") (web 0) false (lit "bob") world refl

world-IsConsistent : IsConsistent world.vmdb.db
unfolding GoMap.get str_beq active_count is_valid_name id
world-IsConsistent = record {
  is_map = (refl, tt);
  keyed = (refl, record { valid = refl; some_char = refl; small = omega arith }, tt);
  single = λ n. ground arith;
}

small_revisions : (n : Str) → get_next_revision n world.vmdb ≤ max_int
unfolding get_next_revision max_revision
small_revisions n = ground arith

vm_rebuild-IsConsistent_example :
    IsConsistent (vm_rebuild env (web 0) false (lit "bob") world).0.vmdb.db
vm_rebuild-IsConsistent_example =
    vm_rebuild-IsConsistent env (web 0) false (lit "bob") world small_revisions world-IsConsistent

abbrev printed : List Str
printed =
    lit "_MULCH_ACTION_NAME=open"
    ∷ lit "_MULCH_ACTION_SCRIPT=file:///srv/open.sh"
    ∷ lit "_MULCH_ACTION_USER=app"
    ∷ lit "_MULCH_ACTION=commit"
    ∷ lit "_MULCH_TAG_ADD=php"
    ∷ []

abbrev reading : Reading
reading = record {
  tags = (lit "prod", true) ∷ [];
  actions = [];
  current = empty_action;
  failed = false;
}

read_lines-Extends_example : Extends reading (read_lines outside printed reading)
read_lines-Extends_example = read_lines-Extends outside printed reading
