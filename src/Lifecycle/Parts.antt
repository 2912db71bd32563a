-- ===== src/Lifecycle/Parts.antt =====
-- What the parts of `NewVM` of cmd/mulchd/server/vm.go keep.
use mulch.Prelude.{Bool, Option, none, some, List, if◌then◌else◌, ◌==◌}
use mulch.Text.{Str, lit, str_eq}
use mulch.Text.Words.{is_nil}
use mulch.VmName.{VmName}
use mulch.Vm.{Vm, VmConfig}
use mulch.VmDatabase.{VmDatabase, VmdbError, Host}
use mulch.VmDatabase.Update
use mulch.Backups.{Backup, get_by_name}
use mulch.Lifecycle.{Env, Act, MachineError, Call, pure, ignoring, at_clock, on_vmdb}
use mulch.Lifecycle.Backup.{run_task, allowing, restore_no_checks}
use mulch.Lifecycle.Create.{
  seed_ready, no_conflict, backup_exists, add_lease, remove_lease, not_in_libvirt, check_active,
  check_restore, prepare, boot, install_or_restore, remove_domain, remove_disk, new_machine,
  lease_result,
}
use mulch.Lifecycle.Steps.{
  State, Keeps, bind-Keeps, ignoring-Keeps, require-Keeps, if-Keeps, when-Keeps, on_vmdb-Keeps,
}
use mulch.Lifecycle.Reads.{step, call_then, require_then}
use mulch.Lifecycle.Kept.{Allows, allowing-Keeps, run_task-Keeps, restore_no_checks-Keeps}

-- The greenhouse does not count.
pub record AllowsHouse (Q : State) : Type 0 where
  pub enters :
      (h : Host) (vm : Vm) (name : VmName) (d : VmDatabase) (l : List Call)
      → Q d l
      → Q (Update.add_to_greenhouse h vm name d).0 l
  pub leaves :
      (name : VmName) (d : VmDatabase) (l : List Call)
      → Q d l
      → Q (Update.delete_from_greenhouse name d).0 l

module _ (Q : State) (a : Allows Q) (b : AllowsHouse Q) (env : Env) where
  pub seed_ready-Keeps : (o : Option Bool) → Keeps Q (seed_ready o)
  unfolding seed_ready
  seed_ready-Keeps none w q = q
  seed_ready-Keeps (some r) w q = require-Keeps Q r MachineError.seed_not_ready w q

  no_conflict-Keeps : (o : Option VmdbError) → Keeps Q (no_conflict o)
  unfolding no_conflict
  no_conflict-Keeps none w q = q
  no_conflict-Keeps (some r) w q = q

  pub check_active-Keeps :
      (vm : Vm) (name : VmName) (active : Bool) → Keeps Q (check_active env vm name active)
  unfolding check_active
  check_active-Keeps vm name active w q = when-Keeps Q active _ (no_conflict-Keeps _) w q

  backup_exists-Keeps : (name : Str) (o : Option Backup) → Keeps Q (backup_exists name o)
  unfolding backup_exists
  backup_exists-Keeps name none w q = require-Keeps Q _ MachineError.no_backup w q
  backup_exists-Keeps name (some r) w q = q

  pub check_restore-Keeps : (config : VmConfig) → Keeps Q (check_restore env config)
  unfolding check_restore
  check_restore-Keeps config w q =
      when-Keeps Q _ _
        (bind-Keeps Q _ _
          (backup_exists-Keeps config.restore_backup (get_by_name config.restore_backup w.backups))
          (λ _. require-Keeps Q _ _))
        w q

  pub add_lease-Keeps : (name : VmName) (vm : Vm) → Keeps Q (add_lease env name vm)
  unfolding add_lease lease_result
  add_lease-Keeps name vm w q = q

  pub remove_lease-Keeps : (vm : Vm) → Keeps Q (remove_lease env vm)
  unfolding remove_lease lease_result
  remove_lease-Keeps vm w q = q

  pub boot-Keeps : (name : VmName) → Keeps Q (boot env name)
  unfolding boot
  boot-Keeps name = call_then Q a.grows env (Call.uuid_of name) _ (
      call_then Q a.grows env (Call.start name) _
        (bind-Keeps Q (at_clock env.events) _ (λ w q. q) (λ events w q. q)))

  pub prepare-Keeps : (name : VmName) (vm : Vm) (allow : Bool) → Keeps Q (prepare env name vm allow)
  unfolding prepare
  prepare-Keeps name vm allow =
      bind-Keeps Q (at_clock env.lines) _ (λ w q. q)
        (λ lines.
          bind-Keeps Q _ _ (run_task-Keeps Q a env name (lit "prepare") vm.config.prepare allow)
            (λ _ w q. q))

  pub install_or_restore-Keeps :
      (name : VmName) (vm : Vm) (o : Option Backup) (allow : Bool)
      → Keeps Q (install_or_restore env name vm o allow)
  unfolding install_or_restore
  install_or_restore-Keeps name vm none allow =
      when-Keeps Q _ _ (run_task-Keeps Q a env name (lit "install") vm.config.install allow)
  install_or_restore-Keeps name vm (some backup) allow =
      let asked : Str = vm.config.restore_backup in
      let install : Act Unit = run_task env name (lit "install") vm.config.install allow in
      let restore : Act Unit = allowing env allow (restore_no_checks env name vm backup) in
      if-Keeps Q (is_nil asked) install (if asked == lit "-" then pure tt else restore)
        (run_task-Keeps Q a env name (lit "install") vm.config.install allow)
        (if-Keeps Q (asked == lit "-") (pure tt) restore (λ w q. q)
          (allowing-Keeps Q a env allow (restore_no_checks env name vm backup)
            (restore_no_checks-Keeps Q a env name vm backup)))

  pub remove_domain-Keeps : (name : VmName) → Keeps Q (remove_domain env name)
  unfolding remove_domain
  remove_domain-Keeps name =
      bind-Keeps Q _ _ (ignoring-Keeps Q _ (step Q a.grows env (Call.destroy name)))
        (λ _. step Q a.grows env (Call.undefine name))

  pub remove_disk-Keeps : (name : VmName) → Keeps Q (remove_disk env name)
  unfolding remove_disk
  remove_disk-Keeps name =
      call_then Q a.grows env (Call.find_disk name) _ (step Q a.grows env (Call.delete_disk name))

  pub leave-Keeps :
      (name : VmName) → Keeps Q (ignoring (on_vmdb env (λ h. Update.delete_from_greenhouse name)))
  leave-Keeps name =
      ignoring-Keeps Q _
        (on_vmdb-Keeps Q env (λ h. Update.delete_from_greenhouse name) (λ h. b.leaves name))

  pub not_in_libvirt-Keeps : (name : VmName) → Keeps Q (not_in_libvirt env name)
  unfolding not_in_libvirt
  not_in_libvirt-Keeps name =
      bind-Keeps Q (at_clock env.disk) _ (λ w q. q)
        (λ there.
          require_then Q a.grows env _ MachineError.already_in_libvirt _
            (step Q a.grows env (Call.find_domain name)))

  pub new_machine-Keeps :
      (config : VmConfig) (author : Str) → Keeps Q (new_machine env config author)
  unfolding new_machine
  new_machine-Keeps config author = bind-Keeps Q (λ w. (w, _)) _ (λ w q. q) (λ ip w q. q)
