-- ===== src/Lifecycle/Create.antt =====
-- `NewVM` of cmd/mulchd/server/vm.go. The domain's description, made from a template file, is one call
-- here, and so is a run of scripts on the machine.
use mulch.Prelude.{
  suc, Bool, false, not, Option, none, some, List, [], ◌∷◌, if◌then◌else◌, ◌==◌, Outcome, ok, err,
}
use mulch.Text.{Str, lit, str_eq}
use mulch.Text.Words.{is_nil, is_valid_name}
use mulch.VmName.{VmName, libvirt_domain_name}
use mulch.Vm.{Vm, VmConfig}
use mulch.VmDatabase.{VmdbError}
use mulch.VmDatabase.Lookups.{get_next_revision}
use mulch.VmDatabase.Update
use mulch.VmDatabase.Update.{check_conflicts}
use mulch.Backups.{Backup, get_by_name}
use mulch.Dhcp.{DhcpHost, DhcpError, Leases, add_transient_dhcp_host, remove_transient_dhcp_host}
use mulch.EnvMap.{get_secrets_map}
use mulch.Lifecycle.{
  World, Env, Act, MachineError, Call, Event, running, shutoff, crashed, other_state, cloud_init,
  other_phone, checked, pure, fail, at_clock, ◌>>=◌, deferring, ignoring, require, when, on_failure,
  call, on_vmdb,
}
use mulch.Lifecycle.Backup.{allowing, run_task, restore_no_checks}
use mulch.Lifecycle.Callback.{Reading, empty_action, read_lines}

-- The wait for cloud-init: the address from which the machine phones home. The events are those before
-- the timeout, which comes last.
unfoldable pub wait_phone : List Event → Outcome MachineError Str
wait_phone [] = err MachineError.too_long
wait_phone (cloud_init ip ∷ events) = ok ip
wait_phone (other_phone ∷ events) = wait_phone events
wait_phone (checked none ∷ events) = err MachineError.not_found
wait_phone (checked (some crashed) ∷ events) = err MachineError.has_crashed
wait_phone (checked (some shutoff) ∷ events) = err MachineError.has_stopped
wait_phone (checked (some running) ∷ events) = wait_phone events
wait_phone (checked (some other_state) ∷ events) = wait_phone events

unfoldable pub free_address : Option Str → Outcome MachineError Str
free_address none = err MachineError.no_address
free_address (some ip) = ok ip

unfoldable pub seed_ready : Option Bool → Act Unit
seed_ready none = fail MachineError.no_seed
seed_ready (some ready) = require ready MachineError.seed_not_ready

unfoldable pub no_conflict : Option VmdbError → Act Unit
no_conflict none = pure tt
no_conflict (some e) = fail (MachineError.vmdb_error e)

unfoldable pub backup_exists : Str → Option Backup → Act Unit
backup_exists name none = require (name == lit "-") MachineError.no_backup
backup_exists name (some b) = pure tt

unfoldable pub lease_result :
    World → Leases × List DhcpHost × Option DhcpError → World × Outcome MachineError Unit
lease_result w (leases, hosts, e) = (record w { leases = leases; hosts = hosts }, ok tt)

abbrev pub lease_of : Str → VmName → Vm → DhcpHost
lease_of prefix name vm = record {
  name = libvirt_domain_name prefix name;
  mac = vm.assigned_mac;
  ip = vm.assigned_ipv4;
}

module _ (env : Env) where
  -- `AddTransientDHCPHost` and `RemoveTransientDHCPHost`, whose errors are ignored
  unfoldable pub add_lease : VmName → Vm → Act Unit
  unfolding lease_result
  add_lease name vm w =
      lease_result (record w { clock = suc w.clock })
        (add_transient_dhcp_host env.prefix w.vmdb (env.network w.clock) (env.answer w.clock)
          vm.address (lease_of env.prefix name vm) w.hosts w.leases)

  unfoldable pub remove_lease : Vm → Act Unit
  unfolding lease_result
  remove_lease vm w =
      lease_result (record w { clock = suc w.clock })
        (remove_transient_dhcp_host env.prefix w.vmdb (env.network w.clock) (env.answer w.clock)
          vm.address w.hosts w.leases)

  -- The machine, with its address on the network, before it has a name.
  unfoldable pub make_vm : VmConfig → Str → World → Str → Vm
  make_vm config author w ip = record {
    address = env.address w.clock;
    secret_uuid = env.uuid w.clock;
    config = config;
    author_key = author;
    init_date = env.now w.clock;
    last_ip = [];
    locked = false;
    wip = [];
    assigned_mac = env.mac w.clock;
    assigned_ipv4 = ip;
  }

  -- `LookupDomainByName` must fail, and with the error that there is no such domain.
  unfoldable pub not_in_libvirt : VmName → Act Unit
  not_in_libvirt name = do
    there ← at_clock env.disk
    _ ← require (not there) MachineError.already_in_libvirt
    call env (Call.find_domain name)

  -- "if active": the conflicts of domains and ports
  unfoldable pub check_active : Vm → VmName → Bool → Act Unit
  check_active vm name active w =
      when active (no_conflict (check_conflicts (env.host w.clock) vm name.name w.vmdb)) w

  unfoldable pub secrets_known : Vm → Act Unit
  secrets_known vm =
      require (is_nil (get_secrets_map env.outside.secrets vm.config.secrets).1)
        MachineError.missing_secrets

  -- "check if backup exists (if a restore was requested)"
  unfoldable pub check_restore : VmConfig → Act Unit
  check_restore config w =
      when (not (is_nil config.restore_backup))
        (do
          _ ← backup_exists config.restore_backup (get_by_name config.restore_backup w.backups)
          require (not (is_nil config.restore)) MachineError.no_restore_script)
        w

  unfoldable pub reading_result : Vm → Reading → Outcome MachineError Vm
  reading_result vm r =
      if r.failed
      then err MachineError.bad_action
      else ok (record vm { config = record vm.config { tags = r.tags; do_actions = r.actions } })

  -- "4 - run prepare scripts": the machine, with the tags and actions that the scripts add.
  unfoldable pub prepare : VmName → Vm → Bool → Act Vm
  prepare name vm allow = do
    lines ← at_clock env.lines
    _ ← run_task env name (lit "prepare") vm.config.prepare allow
    (λ w. (
      w,
      reading_result vm (
          read_lines env.outside lines (record {
            tags = vm.config.tags;
            actions = vm.config.do_actions;
            current = empty_action;
            failed = false;
          })),
    ))

  -- The first boot, and the wait for the phone call
  unfoldable pub boot : VmName → Act Str
  boot name = do
    _ ← call env (Call.uuid_of name)
    _ ← call env (Call.start name)
    events ← at_clock env.events
    (λ w. (w, wait_phone events))

  -- "5a - restore backup", or "5b - run install scripts"
  unfoldable pub install_or_restore : VmName → Vm → Option Backup → Bool → Act Unit
  install_or_restore name vm none allow =
      when (is_nil vm.config.restore_backup)
        (run_task env name (lit "install") vm.config.install allow)
  install_or_restore name vm (some backup) allow =
      if is_nil vm.config.restore_backup
      then run_task env name (lit "install") vm.config.install allow
      else if vm.config.restore_backup == lit "-"
      then pure tt
      else allowing env allow (restore_no_checks env name vm backup)

  -- Once the domain is defined
  unfoldable pub on_domain : VmName → Vm → Bool → Bool → Option Backup → Act Vm
  on_domain name vm active allow backup = do
    ip ← boot name
    vm' ← prepare name (record vm { last_ip = ip }) allow
    _ ← install_or_restore name vm' backup allow
    _ ← on_vmdb env (λ h. Update.add h vm' name active)
    pure vm'

  -- "rollback, deleting vm"
  unfoldable pub remove_domain : VmName → Act Unit
  remove_domain name = do _ ← ignoring (call env (Call.destroy name)); call env (Call.undefine name)

  -- Once the disk is created: it is resized, and the domain is defined.
  unfoldable pub on_disk : VmName → Vm → Bool → Bool → Option Backup → Act Vm
  on_disk name vm active allow backup = do
    _ ← call env (Call.resize_disk name)
    _ ← call env Call.read_file
    _ ← call env (Call.define name)
    deferring (on_failure (remove_domain name)) (on_domain name vm active allow backup)

  -- "rollback, deleting disk"
  unfoldable pub remove_disk : VmName → Act Unit
  remove_disk name = do _ ← call env (Call.find_disk name); call env (Call.delete_disk name)

  -- With the lease of the network
  unfoldable pub with_lease : VmName → Vm → Bool → Bool → Option Backup → Act Vm
  with_lease name vm active allow backup = do
    _ ← add_lease name vm
    deferring (λ _. remove_lease vm)
        (do
          _ ← call env (Call.create_disk name)
          deferring (on_failure (remove_disk name)) (on_disk name vm active allow backup))

  -- The backup to restore, if there is one
  unfoldable pub find_backup : VmConfig → Act (Option Backup)
  find_backup config w = (w, ok (get_by_name config.restore_backup w.backups))

  -- In the greenhouse
  unfoldable pub in_greenhouse : VmName → Vm → Bool → Bool → Act Vm
  in_greenhouse name vm active allow = do
    _ ← seed_ready (env.seeds vm.config.seed)
    _ ← check_active vm name active
    _ ← secrets_known vm
    backup ← find_backup vm.config
    _ ← check_restore vm.config
    _ ← call env Call.public_key
    with_lease name vm active allow backup

  -- `AddToGreenhouse`, whose error is ignored, and the deferred `DeleteFromGreenhouse`.
  unfoldable pub grow : VmName → Vm → Bool → Bool → Act Vm
  grow name vm active allow = do
    _ ← ignoring (on_vmdb env (λ h. Update.add_to_greenhouse h vm name))
    deferring (λ _. ignoring (on_vmdb env (λ h. Update.delete_from_greenhouse name)))
        (in_greenhouse name vm active allow)

  -- "find next revision"
  unfoldable pub next_name : Str → Act VmName
  next_name n w = (w, ok (record { name = n; revision = get_next_revision n w.vmdb }))

  -- The pointer, uuid and addresses of the new machine
  unfoldable pub new_machine : VmConfig → Str → Act Vm
  new_machine config author = do
    ip ← (λ w. (w, free_address (env.ipv4 w.clock)))
    (λ w. (w, ok (make_vm config author w ip)))

  -- `NewVM` once the name is chosen
  unfoldable pub new_named : VmName → VmConfig → Bool → Bool → Str → Act (Vm × VmName)
  new_named name config active allow author = do
    _ ← not_in_libvirt name
    vm ← new_machine config author
    vm' ← grow name vm active allow
    pure (vm', name)

  -- `NewVM`
  unfoldable pub new_vm : VmConfig → Bool → Bool → Str → Act (Vm × VmName)
  new_vm config active allow author = do
    _ ← call env Call.random
    _ ← call env Call.connect
    _ ← require (is_valid_name config.name) MachineError.bad_name
    name ← next_name config.name
    new_named name config active allow author
