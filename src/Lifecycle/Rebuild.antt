-- ===== src/Lifecycle/Rebuild.antt =====
-- `VMRebuild` of cmd/mulchd/server/vm.go: a new revision takes the place of a machine.
use mulch.Prelude.{
  ℕ, Bool, true, false, not, ◌&&◌, ◌||◌, Option, none, some, [], if◌then◌else◌, Outcome, ok, err,
  panic,
}
use mulch.Text.{Str, lit}
use mulch.Text.Words.{is_nil}
use mulch.VmName.{VmName}
use mulch.Vm.{Vm, VmEntry, VmConfig}
use mulch.VmDatabase
use mulch.VmDatabase.{VmDatabase, Host}
use mulch.VmDatabase.Update.{set_active_revision}
use mulch.Backups
use mulch.Backups.{Backup, get_by_name}
use mulch.Config.{ConfigError}
use mulch.Config.Reader.{new_vm_config}
use mulch.Lifecycle.{
  Env, Act, MachineError, Call, pure, fail, ◌>>=◌, deferring, ignoring, require, when, on_failure,
  call, on_vmdb, on_backups, get_entry, reread,
}
use mulch.Lifecycle.Delete.{is_up, vm_delete, vm_lock_unlock}
use mulch.Lifecycle.Backup.{vm_backup, restore_no_checks}
use mulch.Lifecycle.Create.{new_vm}

-- Whether the data of the machine is saved and restored: both kinds of scripts are there, or none.
unfoldable pub backup_and_restore : VmConfig → Outcome MachineError Bool
backup_and_restore config =
    if not (is_nil config.restore) && is_nil config.backup
    then err MachineError.no_backup_script
    else if not (is_nil config.backup) && is_nil config.restore
    then err MachineError.no_restore_script
    else ok (not (is_nil config.restore && is_nil config.backup))

unfoldable pub config_result : Bool → Outcome ConfigError VmConfig → Outcome MachineError VmConfig
config_result with_data (ok c) =
    ok (record c { restore_backup = if with_data then lit "-" else [] })
config_result with_data (err e) = err (MachineError.config_error e)
config_result with_data panic = panic

abbrev pub lift : {A : Type 0} → Outcome MachineError A → Act A
lift r w = (w, r)

unfoldable pub found_backup : Option Backup → Act Backup
found_backup none = fail MachineError.no_backup
found_backup (some b) = pure b

module _ (env : Env) where
  unfoldable pub set_revision : Str → Option ℕ → Act Unit
  set_revision n revision = on_vmdb env (λ h. set_active_revision h n revision)

  -- "-always- delete backup": its errors are only logged.
  unfoldable pub drop_backup : Str → Act Unit
  drop_backup volume =
      ignoring (do _ ← on_backups env (Backups.delete volume); call env (Call.delete_volume volume))

  unfoldable pub restore_from : Str → Vm → VmName → Act Unit
  restore_from volume new_machine new_name = do
    backup ← (λ w. found_backup (get_by_name volume w.backups) w)
    restore_no_checks env new_name new_machine backup

  -- What follows the commit; if the new machine cannot be locked, the rest is left out.
  unfoldable pub finish_rebuild : VmName → Bool → Act Unit
  finish_rebuild new_name lock = do
    _ ← when lock (vm_lock_unlock env new_name true)
    on_vmdb env VmDatabase.save

  -- "activate rev+1", the deletion of the original, then what is done once it is too late to go back.
  unfoldable pub replace : VmName → VmEntry → Bool → VmName → Bool → Act Unit
  replace name entry active new_name lock = do
    _ ← when active (set_revision new_name.name (some new_name.revision))
    now ← reread name entry
    _ ← vm_lock_unlock env name false
    _ ← vm_delete env name
    ignoring (finish_rebuild new_name (lock || now.vm.locked))

  -- With the data: it is saved from the original, and restored on the new machine.
  unfoldable pub move_data : VmName → VmEntry → Bool → Vm → VmName → Bool → Str → Act Unit
  move_data name entry active new_machine new_name lock author = do
    volume ← vm_backup env name author false 0
    deferring (λ _. drop_backup volume)
        (do _ ← restore_from volume new_machine new_name; replace name entry active new_name lock)

  -- Once the original is not active
  unfoldable pub move : VmName → VmEntry → Bool → Bool → Vm → VmName → Bool → Str → Act Unit
  move name entry active with_data new_machine new_name lock author =
      if with_data
      then move_data name entry active new_machine new_name lock author
      else replace name entry active new_name lock

  -- "set rev+0 as inactive", and back if the rest fails
  unfoldable pub switched : VmName → VmEntry → Bool → Vm → VmName → Bool → Str → Act Unit
  switched name entry with_data new_machine new_name lock author = do
    _ ← set_revision name.name none
    deferring (on_failure (ignoring (set_revision name.name (some name.revision))))
        (move name entry true with_data new_machine new_name lock author)

  unfoldable pub take_over : VmName → VmEntry → Bool → Vm → VmName → Bool → Str → Act Unit
  take_over name entry with_data new_machine new_name lock author =
      if entry.active
      then switched name entry with_data new_machine new_name lock author
      else move name entry false with_data new_machine new_name lock author

  -- Once the new machine is there: it is deleted if the rest fails.
  unfoldable pub with_new : VmName → VmEntry → Bool → Bool → Str → Vm × VmName → Act Unit
  with_new name entry with_data lock author (new_machine, new_name) =
      deferring (on_failure (ignoring (vm_delete env new_name)))
        (do now ← reread name entry; take_over name now with_data new_machine new_name lock author)

  -- The checks before anything is changed: the configuration of the new machine.
  unfoldable pub check_rebuild : VmName → VmEntry → Act (Bool × VmConfig)
  check_rebuild name entry = do
    _ ← require (is_nil entry.vm.wip) MachineError.in_progress
    with_data ← lift (backup_and_restore entry.vm.config)
    up ← is_up env name
    _ ← require up MachineError.not_running
    config ←
        lift
          (config_result with_data (new_vm_config env.outside (some entry.vm.config.file_content)))
    pure (with_data, config)

  -- `VMRebuild`
  unfoldable pub vm_rebuild : VmName → Bool → Str → Act Unit
  vm_rebuild name lock author = do
    entry ← get_entry name
    checked ← check_rebuild name entry
    new ← new_vm env checked.1 false false author
    with_new name entry checked.0 lock author new
