-- ===== src/Lifecycle/Rebuilt.antt =====
-- A property that the methods of the database keep is kept by `VMRebuild` of
-- cmd/mulchd/server/vm.go.
use mulch.Prelude.{ℕ, Bool, true, false, ◌||◌, Option, none, some}
use mulch.Text.{Str, str_eq}
use mulch.VmName.{VmName}
use mulch.Vm.{Vm, VmEntry}
use mulch.Backups.{Backup, get_by_name}
use mulch.Lifecycle.{Env, Call, get_entry, reread}
use mulch.Lifecycle.Rebuild.{
  found_backup, set_revision, drop_backup, restore_from, replace, finish_rebuild, move_data, move,
  switched, take_over, with_new, vm_rebuild,
}
use mulch.Lifecycle.Steps.{
  State, Keeps, bind-Keeps, deferring-Keeps, ignoring-Keeps, if-Keeps, when-Keeps, on_failure-Keeps,
  on_vmdb-Keeps, on_backups-Keeps, get_entry-Keeps, reread-Keeps,
}
use mulch.Lifecycle.Reads.{step, check_rebuild-Keeps}
use mulch.Lifecycle.Kept.{
  Allows, Deletes, vm_lock_unlock-Keeps, vm_delete-Keeps, vm_backup-Keeps, restore_no_checks-Keeps,
  save-Keeps,
}
use mulch.Lifecycle.Parts.{AllowsHouse}
use mulch.Lifecycle.Built.{AddsTo, new_vm-Keeps}

module _ (Q : State) (a : Allows Q) (env : Env) where
  pub set_revision-Keeps : (n : Str) (r : Option ℕ) → Keeps Q (set_revision env n r)
  unfolding set_revision
  set_revision-Keeps n r = on_vmdb-Keeps Q env _ (λ h. a.activates h n r)

  pub drop_backup-Keeps : (volume : Str) → Keeps Q (drop_backup env volume)
  unfolding drop_backup
  drop_backup-Keeps volume = ignoring-Keeps Q _ (
      bind-Keeps Q _ _ (on_backups-Keeps Q env _)
        (λ _. step Q a.grows env (Call.delete_volume volume)))

  found_backup-Keeps : (o : Option Backup) → Keeps Q (found_backup o)
  unfolding found_backup
  found_backup-Keeps none w q = q
  found_backup-Keeps (some r) w q = q

  pub restore_from-Keeps :
      (volume : Str) (vm : Vm) (name : VmName) → Keeps Q (restore_from env volume vm name)
  unfolding restore_from
  restore_from-Keeps volume vm name =
      bind-Keeps Q (λ w. found_backup (get_by_name volume w.backups) w) _
        (λ w q. found_backup-Keeps (get_by_name volume w.backups) w q)
        (λ backup. restore_no_checks-Keeps Q a env name vm backup)

pub finish_rebuild-Keeps :
    (Q : State) (a : Allows Q) (env : Env) (new_name : VmName) (lock : Bool)
    → Keeps Q (finish_rebuild env new_name lock)
unfolding finish_rebuild
finish_rebuild-Keeps Q a env new_name lock =
    bind-Keeps Q _ _ (when-Keeps Q lock _ (vm_lock_unlock-Keeps Q a env new_name true))
      (λ _. save-Keeps Q a env)

module _ (Q : State) (a : Allows Q) (b : AllowsHouse Q) (del : Deletes Q) (env : Env) where
  replace-Keeps :
      (name : VmName) (e : VmEntry) (active : Bool) (new_name : VmName) (lock : Bool)
      → Keeps Q (replace env name e active new_name lock)
  unfolding replace
  replace-Keeps name e active new_name lock =
      bind-Keeps Q _ _
        (when-Keeps Q active _ (set_revision-Keeps Q a env new_name.name (some new_name.revision)))
        (λ _. bind-Keeps Q (reread name e) _ (reread-Keeps Q name e) (λ now.
          bind-Keeps Q _ _ (vm_lock_unlock-Keeps Q a env name false) (λ _.
            bind-Keeps Q _ _ (vm_delete-Keeps Q a env del name) (λ _.
              ignoring-Keeps Q _ (finish_rebuild-Keeps Q a env new_name (lock || now.vm.locked))))))

  move_data-Keeps :
      (name : VmName) (e : VmEntry) (active : Bool) (vm : Vm) (new_name : VmName) (lock : Bool)
      (author : Str)
      → Keeps Q (move_data env name e active vm new_name lock author)
  unfolding move_data
  move_data-Keeps name e active vm new_name lock author =
      bind-Keeps Q _ _ (vm_backup-Keeps Q a env name author false 0) (λ volume.
        deferring-Keeps Q _ _ (λ r. drop_backup-Keeps Q a env volume)
          (bind-Keeps Q _ _ (restore_from-Keeps Q a env volume vm new_name)
            (λ _. replace-Keeps name e active new_name lock)))

  move-Keeps :
      (name : VmName) (e : VmEntry) (active with_data : Bool) (vm : Vm) (new_name : VmName)
      (lock : Bool) (author : Str)
      → Keeps Q (move env name e active with_data vm new_name lock author)
  unfolding move
  move-Keeps name e active with_data vm new_name lock author =
      if-Keeps Q with_data (move_data env name e active vm new_name lock author)
        (replace env name e active new_name lock)
        (move_data-Keeps name e active vm new_name lock author)
        (replace-Keeps name e active new_name lock)

  take_over-Keeps :
      (name : VmName) (e : VmEntry) (with_data : Bool) (vm : Vm) (new_name : VmName) (lock : Bool)
      (author : Str)
      → Keeps Q (take_over env name e with_data vm new_name lock author)
  unfolding take_over switched
  take_over-Keeps name e with_data vm new_name lock author =
      if-Keeps Q e.active (switched env name e with_data vm new_name lock author)
        (move env name e false with_data vm new_name lock author)
        (bind-Keeps Q _ _ (set_revision-Keeps Q a env name.name none) (λ _.
          deferring-Keeps Q _ _
            (λ r.
              on_failure-Keeps Q _ r
                (ignoring-Keeps Q _ (set_revision-Keeps Q a env name.name (some name.revision))))
            (move-Keeps name e true with_data vm new_name lock author)))
        (move-Keeps name e false with_data vm new_name lock author)

  pub with_new-Keeps :
      (name : VmName) (e : VmEntry) (with_data lock : Bool) (author : Str) (new : Vm × VmName)
      → Keeps Q (with_new env name e with_data lock author new)
  unfolding with_new
  with_new-Keeps name e with_data lock author (vm, new_name) =
      deferring-Keeps Q _ _
        (λ r. on_failure-Keeps Q _ r (ignoring-Keeps Q _ (vm_delete-Keeps Q a env del new_name)))
        (bind-Keeps Q (reread name e) _ (reread-Keeps Q name e)
          (λ now. take_over-Keeps name now with_data vm new_name lock author))

  pub vm_rebuild-Keeps :
      (name : VmName) (lock : Bool) (author : Str)
      → ((n : VmName) → AddsTo Q Q n)
      → Keeps Q (vm_rebuild env name lock author)
  unfolding vm_rebuild
  vm_rebuild-Keeps name lock author adds =
      bind-Keeps Q (get_entry name) _ (get_entry-Keeps Q name) (λ e.
        bind-Keeps Q _ _ (check_rebuild-Keeps Q a.grows env name e) (λ checked.
          bind-Keeps Q _ _ (new_vm-Keeps Q a b env checked.1 false false author adds)
            (λ new. with_new-Keeps name e checked.0 lock author new)))
