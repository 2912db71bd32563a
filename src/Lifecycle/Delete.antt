-- ===== src/Lifecycle/Delete.antt =====
-- `VMLockUnlock`, `VMDelete` and `VMIsRunning` of cmd/mulchd/server/vm.go.
use mulch.Prelude.{suc, Bool, true, false, not, Outcome, ok, err, panic}
use mulch.VmName.{VmName}
use mulch.Vm.{VmEntry}
use mulch.VmDatabase
use mulch.VmDatabase.{VmDatabase, Host, Update}
use mulch.VmDatabase.Update.{delete}
use mulch.Lifecycle.{
  World, Env, Act, MachineError, Call, DomainState, running, shutoff, pure, at_clock, ◌>>=◌,
  ignoring, require, when, call, on_vmdb, rebuild_leases, get_entry, write_vm,
}

abbrev pub is_shutoff : DomainState → Bool
is_shutoff shutoff = true
is_shutoff _ = false

abbrev pub is_running : DomainState → Bool
is_running running = true
is_running _ = false

unfoldable pub no_is_false : World × Outcome MachineError Bool → World × Outcome MachineError Bool
no_is_false (w, ok b) = (w, ok b)
no_is_false (w, err e) = (w, ok false)
no_is_false (w, panic) = (w, ok false)

module _ (env : Env) where
  -- `GetState`
  unfoldable pub get_state : VmName → Act DomainState
  get_state name = do s ← at_clock env.state; _ ← call env (Call.state_of name); pure s

  -- `VMIsRunning`; that there is no such domain is an error too.
  unfoldable pub vm_is_running : VmName → Act Bool
  vm_is_running name = do
    _ ← call env (Call.find_domain name)
    s ← get_state name
    pure (is_running s)

  -- `running, _ := VMIsRunning(…)`
  unfoldable pub is_up : VmName → Act Bool
  unfolding no_is_false
  is_up name w = no_is_false (vm_is_running name w)

  -- `VMLockUnlock`: the error of `Update` is ignored.
  unfoldable pub vm_lock_unlock : VmName → Bool → Act Unit
  vm_lock_unlock name locked = do
    _ ← get_entry name
    _ ← write_vm name (λ vm. record vm { locked = locked })
    ignoring (on_vmdb env VmDatabase.save)

  -- "destroy (if running)"
  unfoldable pub force_stop : VmName → DomainState → Act Unit
  force_stop name s = when (not (is_shutoff s)) (do
    _ ← call env (Call.destroy name)
    s' ← get_state name
    require (is_shutoff s') MachineError.not_stopped)

  -- "undefine storages": the description names the disk, if there is one.
  unfoldable pub delete_disk : VmName → Act Unit
  delete_disk name = do
    disk ← at_clock env.disk
    _ ← call env (Call.describe name)
    when disk (do _ ← call env (Call.find_disk name); call env (Call.delete_disk name))

  -- `VMDB.Delete` saves twice at most: it takes two of the host's answers.
  unfoldable pub delete_entry : VmName → Act Unit
  delete_entry name w =
      on_vmdb env (λ h. delete (env.host w.clock) h name) (record w { clock = suc w.clock })

  -- "undefine domain", "remove from database"
  unfoldable pub remove_machine : VmName → Act Unit
  remove_machine name = do _ ← call env (Call.undefine name); delete_entry name

  -- `VMDelete` once the machine is known not to be locked
  unfoldable pub delete_machine : VmName → Act Unit
  delete_machine name = do
    _ ← call env (Call.find_domain name)
    s ← get_state name
    _ ← force_stop name s
    _ ← delete_disk name
    _ ← remove_machine name
    rebuild_leases env

  unfoldable pub delete_unlocked : VmName → VmEntry → Act Unit
  delete_unlocked name e = do
    _ ← require (not e.vm.locked) MachineError.is_locked
    delete_machine name

  -- `VMDelete`
  unfoldable pub vm_delete : VmName → Act Unit
  vm_delete name = do e ← get_entry name; delete_unlocked name e
