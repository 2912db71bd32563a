-- ===== src/Lifecycle/Backup.antt =====
-- `VMBackup` and `VMRestoreNoChecks` of cmd/mulchd/server/vm.go, and the runs of scripts. A run of
-- scripts, and the attachment of a volume, are one call each.
use mulch.Prelude.{
  ℕ, ◌+◌, Bool, true, false, not, ◌&&◌, ◌||◌, Option, none, some, List, [], ◌∷◌, ◌++◌, ltb,
  if◌then◌else◌,
}
use mulch.Text.{Str, lit}
use mulch.Text.Words.{is_nil}
use mulch.VmName.{VmName, id}
use mulch.Vm.{Vm, VmConfigScript}
use mulch.Backups
use mulch.Backups.{Backup, get_by_name}
use mulch.Config.Origins.{get_content}
use mulch.Lifecycle.{
  Env, Act, MachineError, Call, pure, at_clock, ◌>>=◌, deferring, ignoring, require, when,
  on_failure, call, on_backups, get_entry, write_vm,
}
use mulch.Lifecycle.Delete.{is_up}

abbrev pub is_nobackup : Option Backup → Bool
is_nobackup none = true
is_nobackup (some b) = false

unfoldable pub all_readable : Env → List VmConfigScript → Bool
all_readable env [] = true
all_readable env (s ∷ ss) = elim (get_content env.outside s.script_url) [
  | none ↦ false
  | some file ↦ all_readable env ss
]

unfoldable pub set_operation : VmName → Str → Act Unit
set_operation name operation = write_vm name (λ vm. record vm { wip = operation })

unfoldable pub volume_free : Str → Act Unit
volume_free volume w =
    require (is_nobackup (get_by_name volume w.backups)) MachineError.name_taken w

module _ (env : Env) where
  -- `!allowScriptFailure || vm.TemporaryFlags.ForceDeleteOnScriptFailure`: a failure of scripts counts.
  unfoldable pub allowing : Bool → Act Unit → Act Unit
  allowing allow m = do
    force ← at_clock env.force_delete
    if not allow || force then m else ignoring m

  unfoldable pub run_task : VmName → Str → List VmConfigScript → Bool → Act Unit
  run_task name caption scripts allow = do
    _ ← require (all_readable env scripts) MachineError.no_script
    allowing allow (call env (Call.run_scripts name caption))

  -- "force post-backup", then "rollback backup disk creation"
  unfoldable pub undo_backup : VmName → Str → Act Unit
  undo_backup name volume = do
    _ ← ignoring (call env (Call.run_scripts name (lit "post-backup")))
    _ ← ignoring (call env (Call.detach name))
    _ ← call env (Call.find_volume volume)
    call env (Call.delete_volume volume)

  abbrev pub expire_date : ℕ → ℕ → ℕ
  expire_date now expire = if ltb 0 expire then now + expire else 0

  -- The error of `BackupsDB.Add` is ignored.
  unfoldable pub add_backup : Vm → Str → Str → ℕ → Act Unit
  add_backup vm volume author expire = do
    now ← at_clock env.now
    ignoring (
        on_backups env (
          Backups.add (record {
            disk_name = volume;
            created = now;
            expire = expire_date now expire;
            author_key = author;
            vm = vm;
          })))

  unfoldable pub save_data : VmName → Vm → Str → Str → Bool → ℕ → Act Str
  save_data name vm volume author compress expire = do
    _ ← require (all_readable env vm.config.backup) MachineError.no_script
    _ ← call env (Call.run_scripts name (lit "backup"))
    _ ← call env (Call.detach name)
    _ ← when (vm.config.backup_compress && compress) (call env (Call.compress_volume volume))
    _ ← add_backup vm volume author expire
    pure volume

  -- `VMBackup` once the operation is set: the undo is deferred after the volume is attached.
  unfoldable pub backup_machine : VmName → Vm → Str → Bool → ℕ → Act Str
  backup_machine name vm author compress expire = do
    up ← is_up env name
    _ ← require up MachineError.not_running
    _ ← require (not (is_nil vm.config.backup)) MachineError.no_backup_script
    date ← at_clock env.date
    let volume : Str = id name ++ (lit "-backup-" ++ (date ++ lit ".qcow2"))
    _ ← volume_free volume
    _ ← call env Call.public_key
    _ ← call env (Call.create_volume volume)
    _ ← call env (Call.attach name volume)
    _ ← call env Call.read_file
    _ ← call env Call.read_file
    deferring (on_failure (undo_backup name volume))
        (save_data name vm volume author compress expire)

  -- `VMBackup`: the name of the volume
  unfoldable pub vm_backup : VmName → Str → Bool → ℕ → Act Str
  vm_backup name author compress expire = do
    e ← get_entry name
    _ ← require (is_nil e.vm.wip) MachineError.in_progress
    _ ← set_operation name (lit "backup")
    deferring (λ _. set_operation name []) (backup_machine name e.vm author compress expire)

  unfoldable pub restore_data : VmName → Vm → Act Unit
  restore_data name vm = do
    _ ← call env Call.read_file
    _ ← call env Call.read_file
    _ ← call env Call.public_key
    _ ← require (all_readable env vm.config.restore) MachineError.no_script
    call env (Call.run_scripts name (lit "restore"))

  unfoldable pub restore_attached : VmName → Vm → Backup → Act Unit
  restore_attached name vm backup = do
    _ ← require (not (is_nil vm.config.restore)) MachineError.no_restore_script
    _ ← call env (Call.attach name backup.disk_name)
    deferring (λ _. call env (Call.detach name)) (restore_data name vm)

  -- `VMRestoreNoChecks`
  unfoldable pub restore_no_checks : VmName → Vm → Backup → Act Unit
  restore_no_checks name vm backup = do
    _ ← set_operation name (lit "restore")
    deferring (λ _. set_operation name []) (restore_attached name vm backup)
