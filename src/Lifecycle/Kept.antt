-- ===== src/Lifecycle/Kept.antt =====
-- A property of the database of machines that its methods keep, a deletion only after libvirt has
-- removed the machine, is kept by the whole of `VMDelete`, `VMBackup`, `NewVM` and `VMRebuild` of
-- cmd/mulchd/server/vm.go.
use mulch.Prelude.{ℕ, suc, inl, inr, Bool, not, Option, List, [], ◌∷◌, ◌++◌, Bool-cases}
use mulch.Text.{Str, lit, str_eq}
use mulch.Text.Words.{is_nil}
use mulch.VmName.{VmName, id}
use mulch.Vm.{Vm, VmConfigScript}
use mulch.VmDatabase
use mulch.VmDatabase.{VmDatabase, VmdbError, Host, Update}
use mulch.VmDatabase.Lookups.{get_entry_by_name}
use mulch.VmDatabase.Update
use mulch.Backups.{Backup}
use mulch.Lifecycle.{
  World, Env, Act, MachineError, Call, DomainState, after, ◌>>=◌, ignoring, at_clock, call, on_vmdb,
  get_entry, write_vm, change_vm,
}
use mulch.Lifecycle.Delete.{
  get_state, is_up, vm_lock_unlock, force_stop, delete_disk, delete_entry, remove_machine,
  delete_machine, delete_unlocked, vm_delete,
}
use mulch.Lifecycle.Backup.{
  all_readable, set_operation, allowing, run_task, undo_backup, add_backup, save_data, volume_free,
  backup_machine, vm_backup, restore_data, restore_attached, restore_no_checks,
}
use mulch.Lifecycle.Steps.{
  State, Keeps, bind-Keeps, deferring-Keeps, ignoring-Keeps, require-Keeps, if-Keeps, when-Keeps,
  on_failure-Keeps, on_vmdb-Keeps, on_backups-Keeps, rebuild_leases-Keeps, vmdb_result-Keeps,
  get_entry-Keeps, Grows,
}
use mulch.Lifecycle.Reads.{step, call_then, require_then, get_state-Keeps, is_up-Keeps}

-- What the methods of the database keep of the property.
pub record Allows (Q : State) : Type 0 where
  pub grows : Grows Q
  pub saves : (h : Host) (d : VmDatabase) (l : List Call) → Q d l → Q (VmDatabase.save h d).0 l
  pub writes :
      (name : VmName) (f : Vm → Vm) (d : VmDatabase) (l : List Call)
      → Q d l
      → Q (record d { db = change_vm f (get_entry_by_name name d) (id name) d.db }) l
  pub activates :
      (h : Host) (n : Str) (r : Option ℕ) (d : VmDatabase) (l : List Call)
      → Q d l
      → Q (Update.set_active_revision h n r d).0 l

-- A deletion keeps the property, once the domain is undefined.
abbrev pub Deletes : State → Type 0
Deletes Q =
    (h₁ h₂ : Host) (name : VmName) (d : VmDatabase) (l : List Call)
    → Q d (Call.undefine name ∷ l)
    → Q (Update.delete h₁ h₂ name d).0 (Call.undefine name ∷ l)

module _ (Q : State) (a : Allows Q) (env : Env) where
  write_vm-Keeps : (name : VmName) (f : Vm → Vm) → Keeps Q (write_vm name f)
  unfolding write_vm
  write_vm-Keeps name f w q = a.writes name f w.vmdb w.done q

  pub save-Keeps : Keeps Q (on_vmdb env VmDatabase.save)
  save-Keeps = on_vmdb-Keeps Q env VmDatabase.save a.saves

  pub vm_lock_unlock-Keeps :
      (name : VmName) (locked : Bool) → Keeps Q (vm_lock_unlock env name locked)
  unfolding vm_lock_unlock
  vm_lock_unlock-Keeps name locked = bind-Keeps Q (get_entry name) _ (get_entry-Keeps Q name) (λ e.
      bind-Keeps Q (write_vm name (λ vm. record vm { locked = locked })) _
        (write_vm-Keeps name (λ vm. record vm { locked = locked }))
        (λ _. ignoring-Keeps Q (on_vmdb env VmDatabase.save) save-Keeps))

  pub force_stop-Keeps : (name : VmName) (s : DomainState) → Keeps Q (force_stop env name s)
  unfolding force_stop
  force_stop-Keeps name s = when-Keeps Q _ _ (
      call_then Q a.grows env (Call.destroy name) _ (
        bind-Keeps Q (get_state env name) _ (get_state-Keeps Q a.grows env name)
          (λ t. require-Keeps Q _ _)))

  pub delete_disk-Keeps : (name : VmName) → Keeps Q (delete_disk env name)
  unfolding delete_disk
  delete_disk-Keeps name =
      bind-Keeps Q (at_clock env.disk) _ (λ w q. q)
        (λ disk. call_then Q a.grows env (Call.describe name) _ (
          when-Keeps Q disk _ (
            call_then Q a.grows env (Call.find_disk name) _
              (step Q a.grows env (Call.delete_disk name)))))

  -- The entry goes once the domain is undefined.
  remove_machine-Keeps : Deletes Q → (name : VmName) → Keeps Q (remove_machine env name)
  unfolding remove_machine ◌>>=◌ after call delete_entry on_vmdb
  remove_machine-Keeps del name w q = elim (Bool-cases (env.answer w.clock)) [
    | inl e ↦
        let w' : World = record w { clock = suc w.clock; done = Call.undefine name ∷ w.done } in
        let here = a.grows w.vmdb w.done (Call.undefine name) q in
        let h₁ : Host = env.host (suc w.clock) in
        let h₂ : Host = env.host (suc (suc w.clock)) in
        rw e (
          vmdb_result-Keeps Q (record w' { clock = suc (suc (suc w.clock)) })
            (Update.delete h₁ h₂ name w.vmdb) (del h₁ h₂ name w.vmdb w.done here))
    | inr e ↦ rw e q
  ]

  pub vm_delete-Keeps : Deletes Q → (name : VmName) → Keeps Q (vm_delete env name)
  unfolding vm_delete delete_unlocked delete_machine
  vm_delete-Keeps del name = bind-Keeps Q (get_entry name) _ (get_entry-Keeps Q name) (λ e.
      require_then Q a.grows env (not e.vm.locked) MachineError.is_locked _ (
        call_then Q a.grows env (Call.find_domain name) _ (
          bind-Keeps Q (get_state env name) _ (get_state-Keeps Q a.grows env name) (λ s.
            bind-Keeps Q (force_stop env name s) _ (force_stop-Keeps name s) (λ _.
              bind-Keeps Q (delete_disk env name) _ (delete_disk-Keeps name) (λ _.
                bind-Keeps Q (remove_machine env name) _ (remove_machine-Keeps del name)
                  (λ _. rebuild_leases-Keeps Q env)))))))

  set_operation-Keeps : (name : VmName) (o : Str) → Keeps Q (set_operation name o)
  unfolding set_operation
  set_operation-Keeps name o = write_vm-Keeps name (λ vm. record vm { wip = o })

  pub allowing-Keeps : (allow : Bool) (m : Act Unit) → Keeps Q m → Keeps Q (allowing env allow m)
  unfolding allowing
  allowing-Keeps allow m h =
      bind-Keeps Q (at_clock env.force_delete) _ (λ w q. q)
        (λ force. if-Keeps Q _ m (ignoring m) h (ignoring-Keeps Q m h))

  pub run_task-Keeps :
      (name : VmName) (caption : Str) (scripts : List VmConfigScript) (allow : Bool)
      → Keeps Q (run_task env name caption scripts allow)
  unfolding run_task
  run_task-Keeps name caption scripts allow =
      require_then Q a.grows env (all_readable env scripts) MachineError.no_script _
        (allowing-Keeps allow _ (step Q a.grows env (Call.run_scripts name caption)))

  undo_backup-Keeps : (name : VmName) (volume : Str) → Keeps Q (undo_backup env name volume)
  unfolding undo_backup
  undo_backup-Keeps name volume =
      bind-Keeps Q _ _
        (ignoring-Keeps Q _ (step Q a.grows env (Call.run_scripts name (lit "post-backup"))))
        (λ _. bind-Keeps Q _ _ (ignoring-Keeps Q _ (step Q a.grows env (Call.detach name))) (λ _.
          call_then Q a.grows env (Call.find_volume volume) _
            (step Q a.grows env (Call.delete_volume volume))))

  add_backup-Keeps :
      (vm : Vm) (volume author : Str) (expire : ℕ)
      → Keeps Q (add_backup env vm volume author expire)
  unfolding add_backup
  add_backup-Keeps vm volume author expire =
      bind-Keeps Q (at_clock env.now) _ (λ w q. q)
        (λ now. ignoring-Keeps Q _ (on_backups-Keeps Q env _))

  save_data-Keeps :
      (name : VmName) (vm : Vm) (volume author : Str) (compress : Bool) (expire : ℕ)
      → Keeps Q (save_data env name vm volume author compress expire)
  unfolding save_data
  save_data-Keeps name vm volume author compress expire =
      require_then Q a.grows env (all_readable env vm.config.backup) MachineError.no_script _ (
        call_then Q a.grows env (Call.run_scripts name (lit "backup")) _ (
          call_then Q a.grows env (Call.detach name) _ (
            bind-Keeps Q _ _ (when-Keeps Q _ _ (step Q a.grows env (Call.compress_volume volume)))
              (λ _. bind-Keeps Q _ _ (add_backup-Keeps vm volume author expire) (λ _ w q. q)))))

  volume_free-Keeps : (volume : Str) → Keeps Q (volume_free volume)
  unfolding volume_free
  volume_free-Keeps volume w q = require-Keeps Q _ _ w q

  backup_machine-Keeps :
      (name : VmName) (vm : Vm) (author : Str) (compress : Bool) (expire : ℕ)
      → Keeps Q (backup_machine env name vm author compress expire)
  unfolding backup_machine
  backup_machine-Keeps name vm author compress expire =
      bind-Keeps Q (is_up env name) _ (is_up-Keeps Q a.grows env name) (λ up.
        require_then Q a.grows env up MachineError.not_running _ (
          require_then Q a.grows env (not (is_nil vm.config.backup)) MachineError.no_backup_script _
            (bind-Keeps Q (at_clock env.date) _ (λ w q. q)
              (λ date.
                let volume : Str = id name ++ (lit "-backup-" ++ (date ++ lit ".qcow2")) in
                bind-Keeps Q (volume_free volume) _ (volume_free-Keeps volume) (λ _.
                  call_then Q a.grows env Call.public_key _ (
                    call_then Q a.grows env (Call.create_volume volume) _ (
                      call_then Q a.grows env (Call.attach name volume) _ (
                        call_then Q a.grows env Call.read_file _ (
                          call_then Q a.grows env Call.read_file _ (
                            deferring-Keeps Q _ _
                              (λ r. on_failure-Keeps Q _ r (undo_backup-Keeps name volume))
                              (save_data-Keeps name vm volume author compress expire)))))))))))

  pub vm_backup-Keeps :
      (name : VmName) (author : Str) (compress : Bool) (expire : ℕ)
      → Keeps Q (vm_backup env name author compress expire)
  unfolding vm_backup
  vm_backup-Keeps name author compress expire =
      bind-Keeps Q (get_entry name) _ (get_entry-Keeps Q name) (λ e.
        require_then Q a.grows env (is_nil e.vm.wip) MachineError.in_progress _ (
          bind-Keeps Q _ _ (set_operation-Keeps name (lit "backup")) (λ _.
            deferring-Keeps Q _ _ (λ r. set_operation-Keeps name [])
              (backup_machine-Keeps name e.vm author compress expire))))

  restore_data-Keeps : (name : VmName) (vm : Vm) → Keeps Q (restore_data env name vm)
  unfolding restore_data
  restore_data-Keeps name vm = call_then Q a.grows env Call.read_file _ (
      call_then Q a.grows env Call.read_file _ (
        call_then Q a.grows env Call.public_key _ (
          require_then Q a.grows env (all_readable env vm.config.restore) MachineError.no_script _
            (step Q a.grows env (Call.run_scripts name (lit "restore"))))))

  pub restore_no_checks-Keeps :
      (name : VmName) (vm : Vm) (backup : Backup) → Keeps Q (restore_no_checks env name vm backup)
  unfolding restore_no_checks restore_attached
  restore_no_checks-Keeps name vm backup =
      bind-Keeps Q _ _ (set_operation-Keeps name (lit "restore")) (λ _.
        deferring-Keeps Q _ _ (λ r. set_operation-Keeps name [])
          (require_then Q a.grows env (not (is_nil vm.config.restore))
            MachineError.no_restore_script _
            (call_then Q a.grows env (Call.attach name backup.disk_name) _ (
              deferring-Keeps Q _ _ (λ r. step Q a.grows env (Call.detach name))
                (restore_data-Keeps name vm)))))
