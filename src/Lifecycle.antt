-- ===== src/Lifecycle.antt =====
-- The life of a virtual machine, of cmd/mulchd/server/vm.go: what its functions work on, and how they
-- are composed. Libvirt, the remote shell and the file system are outside: each call of them has an
-- answer, which may be any function of the number of calls before it, and the calls that succeed are
-- recorded, the last one first.
pub mod Callback
pub mod Delete
pub mod Backup
pub mod Create
pub mod Rebuild
pub mod Steps
pub mod Reads
pub mod Kept
pub mod Parts
pub mod Built
pub mod Rebuilt
pub mod Names
pub mod Consistent
pub mod Whole
pub mod Deleted
pub mod Added
pub mod Reached
pub mod Removed
pub mod Replaced
pub mod Rollback
pub mod Safe
mod Tests
use mulch.Prelude.{
  ℕ, suc, ◌+◌, Bool, true, false, not, Option, none, some, List, [], ◌∷◌, if◌then◌else◌, Outcome,
  ok, err, panic,
}
use mulch.GoMap
use mulch.GoMap.{Map}
use mulch.Text.{Str, str_eq}
use mulch.Disk.{Io}
use mulch.VmName.{VmName, id}
use mulch.Vm.{Vm, VmEntry}
use mulch.VmDatabase.{VmDatabase, VmdbError, Host, Update}
use mulch.VmDatabase.Lookups.{get_entry_by_name}
use mulch.Backups.{BackupDatabase, BackupError}
use mulch.Dhcp.{DhcpHost, Leases, DhcpError, rebuild_dhcp_static_leases}
use mulch.Config.{ConfigError, Outside}

-- The calls that change something outside, and those that only read. Domains and disks are told
-- apart by the name of their machine; a backup's volume has its own name.
pub data Call : Type 0 where
  random connect read_file public_key : Call
  find_domain state_of describe uuid_of shutdown destroy start define undefine : VmName → Call
  find_disk create_disk resize_disk delete_disk : VmName → Call
  create_volume find_volume compress_volume delete_volume : Str → Call
  attach : VmName → Str → Call
  detach : VmName → Call
  run_scripts : VmName → Str → Call

pub data DomainState : Type 0 where
  running shutoff crashed other_state : DomainState

-- What happens while a machine boots: it phones home, from an address, or its state is looked at.
pub data Event : Type 0 where
  cloud_init : Str → Event
  other_phone : Event
  checked : Option DomainState → Event

pub data MachineError : Type 0 where
  call_failed : Call → MachineError
  vmdb_error : VmdbError → MachineError
  backup_error : BackupError → MachineError
  dhcp_error : DhcpError → MachineError
  config_error : ConfigError → MachineError
  bad_name already_in_libvirt no_address no_seed seed_not_ready missing_secrets : MachineError
  no_backup no_restore_script no_backup_script name_taken no_script : MachineError
  not_found is_locked not_stopped not_running in_progress : MachineError
  too_long has_crashed has_stopped bad_action : MachineError

pub record World : Type 0 where
  pub clock : ℕ
  pub vmdb : VmDatabase
  pub backups : BackupDatabase
  pub leases : Leases
  pub hosts : List DhcpHost
  pub done : List Call

-- The answers from outside, by the clock. `fresh` are the values made for a new machine: its pointer,
-- its uuid, its address on the network, if there is a free one; `seeds` tells of a seed whether it
-- is ready.
pub record Env : Type 0 where
  pub answer : ℕ → Bool
  pub state : ℕ → DomainState
  pub disk : ℕ → Bool
  pub host : ℕ → Host
  pub io : ℕ → Io
  pub network : ℕ → List DhcpHost → List DhcpHost → Option (List DhcpHost)
  pub events : ℕ → List Event
  pub lines : ℕ → List Str
  pub now : ℕ → ℕ
  pub date : ℕ → Str
  pub address : ℕ → ℕ
  pub uuid : ℕ → Str
  pub mac : ℕ → Str
  pub ipv4 : ℕ → Option Str
  pub seeds : Str → Option Bool
  pub force_delete : ℕ → Bool
  pub prefix : Str
  pub outside : Outside

abbrev pub Act : Type 0 → Type 0
Act A = World → World × Outcome MachineError A

abbrev pub pure : {A : Type 0} → A → Act A
pure a w = (w, ok a)

abbrev pub fail : {A : Type 0} → MachineError → Act A
fail e w = (w, err e)

unfoldable pub after :
    {A B : Type 0} → (A → Act B) → World × Outcome MachineError A → World × Outcome MachineError B
after f (w, ok a) = f a w
after f (w, err e) = (w, err e)
after f (w, panic) = (w, panic)

infixl 5 ◌>>=◌
unfoldable pub ◌>>=◌ : {A B : Type 0} → Act A → (A → Act B) → Act B
unfolding after
◌>>=◌ m f w = after f (m w)

unfoldable pub finally_with :
    {A : Type 0}
    → (Outcome MachineError A → Act Unit)
    → World × Outcome MachineError A
    → World × Outcome MachineError A
finally_with f (w, r) = ((f r w).0, r)

-- A deferred function: it runs at the end, whatever the result, which it does not change.
unfoldable pub deferring : {A : Type 0} → (Outcome MachineError A → Act Unit) → Act A → Act A
unfolding finally_with
deferring f m w = finally_with f (m w)

unfoldable pub ignore_with :
    {A : Type 0} → World × Outcome MachineError A → World × Outcome MachineError Unit
ignore_with (w, r) = (w, ok tt)

-- An error that is ignored, or only logged.
unfoldable pub ignoring : {A : Type 0} → Act A → Act Unit
unfolding ignore_with
ignoring m w = ignore_with (m w)

abbrev pub require : Bool → MachineError → Act Unit
require b e = if b then pure tt else fail e

abbrev pub when : Bool → Act Unit → Act Unit
when b m = if b then m else pure tt

-- `if !success`
abbrev pub on_failure : {A : Type 0} → Act Unit → Outcome MachineError A → Act Unit
on_failure m (ok a) = pure tt
on_failure m (err e) = m
on_failure m panic = m

tick : World → World
tick w = record w { clock = suc w.clock }

unfoldable pub vmdb_result : World → Update → World × Outcome MachineError Unit
vmdb_result w (d, none) = (record w { vmdb = d }, ok tt)
vmdb_result w (d, some e) = (record w { vmdb = d }, err (vmdb_error e))

backups_result : World → BackupDatabase × Option BackupError → World × Outcome MachineError Unit
backups_result w (d, none) = (record w { backups = d }, ok tt)
backups_result w (d, some e) = (record w { backups = d }, err (backup_error e))

leases_result : World → List DhcpHost × Option DhcpError → World × Outcome MachineError Unit
leases_result w (hosts, none) = (record w { hosts = hosts }, ok tt)
leases_result w (hosts, some e) = (record w { hosts = hosts }, err (dhcp_error e))

-- The value that the clock gives
abbrev pub at_clock : {A : Type 0} → (ℕ → A) → Act A
at_clock f w = (w, ok (f w.clock))

module _ (env : Env) where
  unfoldable pub call : Call → Act Unit
  unfolding tick
  call c w =
      if env.answer w.clock
      then (record (tick w) { done = c ∷ w.done }, ok tt)
      else (tick w, err (call_failed c))

  -- A method of the database of machines
  unfoldable pub on_vmdb : (Host → VmDatabase → Update) → Act Unit
  unfolding tick vmdb_result
  on_vmdb f w = vmdb_result (tick w) (f (env.host w.clock) w.vmdb)

  -- A method of the database of backups
  unfoldable pub on_backups : (Io → BackupDatabase → BackupDatabase × Option BackupError) → Act Unit
  unfolding tick backups_result
  on_backups f w = backups_result (tick w) (f (env.io w.clock) w.backups)

  -- `RebuildDHCPStaticLeases`
  unfoldable pub rebuild_leases : Act Unit
  unfolding tick leases_result
  rebuild_leases w = leases_result (tick w) (
      rebuild_dhcp_static_leases env.prefix w.vmdb (env.network w.clock) (env.answer w.clock)
        w.hosts w.leases)

unfoldable pub found_entry : Option VmEntry → Act VmEntry
found_entry none = fail MachineError.not_found
found_entry (some e) = pure e

-- `GetEntryByName`
unfoldable pub get_entry : VmName → Act VmEntry
unfolding found_entry
get_entry name w = found_entry (get_entry_by_name name w.vmdb) w

unfoldable pub change_vm : (Vm → Vm) → Option VmEntry → Str → Map Str VmEntry → Map Str VmEntry
change_vm f none k m = m
change_vm f (some e) k m = GoMap.put k (record e { vm = f e.vm }) m

entry_or : VmEntry → Option VmEntry → VmEntry
entry_or e none = e
entry_or e (some f) = f

-- What the pointer to an entry holds now.
unfoldable pub reread : VmName → VmEntry → Act VmEntry
unfolding entry_or
reread name e w = (w, ok (entry_or e (get_entry_by_name name w.vmdb)))

-- A change of a machine by its pointer, which its entry holds.
unfoldable pub write_vm : VmName → (Vm → Vm) → Act Unit
unfolding change_vm
write_vm name f w = (
  record w {
    vmdb = record w.vmdb { db = change_vm f (get_entry_by_name name w.vmdb) (id name) w.vmdb.db };
  },
  ok tt,
)
