-- ===== src/VmDatabase/Update.antt =====
-- The methods of cmd/mulchd/server/vm_database.go that change the database. Each lets `save` run at
-- most once, save `Delete`, which takes the host's answers to both calls.
use mulch.Prelude.{
  ℕ, Bool, false, not, ◌&&◌, Option, none, some, List, [], ◌∷◌, eqb, if◌then◌else◌, ◌==◌, Outcome,
  ok, err, panic, ◌>>=◌,
}
use mulch.GoMap
use mulch.GoMap.{Map}
use mulch.Text.{Str, str_eq}
use mulch.VmName.{VmName, id}
use mulch.Vm.{Vm, VmEntry}
use mulch.VmDatabase.{VmDatabase, VmdbError, Host, Update, save, not_found, already_exists}
use mulch.VmDatabase.Lookups.{get_names, get_entry_by_name, get_by_name, above, count_name}
use mulch.VmDatabase.Conflicts.{check_domains_conflicts, check_ports_conflicts}

-- The two checks at the head of `Add` and `SetActiveRevision`.
unfoldable pub check_conflicts : Host → Vm → Str → VmDatabase → Option VmdbError
check_conflicts h vm name d = elim (check_domains_conflicts h vm.config.domains name d) [
  | none ↦ check_ports_conflicts vm.config.ports name d
  | some e ↦ some e
]

-- `if err != nil { return err }`, and what follows.
abbrev pub unless_error : Option VmdbError → VmDatabase → Update → Update
unless_error none d rest = rest
unless_error (some e) d rest = (d, some e)

-- "set any other instance as inactive"
unfoldable pub deactivate : Str → Map Str VmEntry → Map Str VmEntry
deactivate n [] = []
deactivate n ((k, e) ∷ m) =
    (k, if e.name.name == n then record e { active = false } else e) ∷ deactivate n m

unfoldable pub undo_failed : VmName → Update → Update
undo_failed name (d, none) = (d, none)
undo_failed name (d, some e) = (record d { db = GoMap.remove (id name) d.db }, some e)

-- `Add` under its lock
unfoldable pub add_locked : Host → Vm → VmName → Bool → VmDatabase → Update
unfolding undo_failed
add_locked h vm name active d =
    let entry : VmEntry = record { name = name; vm = vm; active = active } in
    let others = if active then deactivate name.name d.db else d.db in
    if GoMap.has (id name) d.db
    then (d, some already_exists)
    else undo_failed name (save h (record d { db = GoMap.put (id name) entry others }))

-- `Add`
unfoldable pub add : Host → Vm → VmName → Bool → VmDatabase → Update
add h vm name active d =
    unless_error (if active then check_conflicts h vm name.name d else none) d
      (add_locked h vm name active d)

-- `AddToGreenhouse`
unfoldable pub add_to_greenhouse : Host → Vm → VmName → VmDatabase → Update
add_to_greenhouse h vm name d =
    let entry : VmEntry = record { name = name; vm = vm; active = false } in
    if GoMap.has (id name) d.greenhouse
    then (d, some already_exists)
    else save h (record d { greenhouse = GoMap.put (id name) entry d.greenhouse })

-- `DeleteFromGreenhouse`
unfoldable pub delete_from_greenhouse : VmName → VmDatabase → Update
delete_from_greenhouse name d =
    if GoMap.has (id name) d.greenhouse
    then (record d { greenhouse = GoMap.remove (id name) d.greenhouse }, none)
    else (d, some not_found)

-- `entry.Name.Revision == revision`, where RevisionNone (-1) is `none`
abbrev pub is_revision : Option ℕ → ℕ → Bool
is_revision none r = false
is_revision (some x) r = eqb r x

unfoldable pub set_active : Str → Option ℕ → Map Str VmEntry → Map Str VmEntry
set_active n rev [] = []
set_active n rev ((k, e) ∷ m) =
    (k, if e.name.name == n then record e { active = is_revision rev e.name.revision } else e)
    ∷ set_active n rev m

unfoldable pub vm_verdict : Host → Str → Option Vm → VmDatabase → Option VmdbError
vm_verdict h n none d = some not_found
vm_verdict h n (some vm) d = check_conflicts h vm n d

-- "sanity checks (out of lock!)"
unfoldable pub check_revision : Host → Str → Option ℕ → VmDatabase → Option VmdbError
unfolding vm_verdict
check_revision h n none d = if eqb (count_name n d.db) 0 then some not_found else none
check_revision h n (some r) d = vm_verdict h n (get_by_name (record { name = n; revision = r }) d) d

-- `SetActiveRevision`
unfoldable pub set_active_revision : Host → Str → Option ℕ → VmDatabase → Update
set_active_revision h n rev d =
    unless_error (check_revision h n rev d) d (save h (record d { db = set_active n rev d.db }))

higher : VmName → Option VmEntry → Option ℕ → Outcome VmdbError (Option ℕ)
higher deleted none max = err not_found
higher deleted (some e) max = ok (
    if (e.name.name == deleted.name && not (eqb e.name.revision deleted.revision))
      && above e.name.revision max
    then some e.name.revision
    else max)

-- The loop of `Delete` that searches the highest other revision.
unfoldable pub highest_other :
    VmName → List VmName → VmDatabase → Option ℕ → Outcome VmdbError (Option ℕ)
unfolding higher
highest_other deleted [] d max = ok max
highest_other deleted (n ∷ ns) d max = do
  max' ← higher deleted (get_entry_by_name n d) max
  highest_other deleted ns d max'

unfoldable pub activate : Host → VmName → Outcome VmdbError (Option ℕ) → VmDatabase → Update
activate h deleted (err e) d = (d, some e)
activate h deleted panic d = (d, some not_found)
activate h deleted (ok none) d = (d, none)
activate h deleted (ok (some r)) d = set_active_revision h deleted.name (some r) d

-- `Delete` before its lock
unfoldable pub hand_over : Host → VmEntry → VmDatabase → Update
unfolding activate
hand_over h e d =
    if e.active then activate h e.name (highest_other e.name (get_names d) d none) d else (d, none)

unfoldable pub remove_locked : Host → VmName → Update → Update
remove_locked h name (d, some e) = (d, some e)
remove_locked h name (d, none) = save h (record d { db = GoMap.remove (id name) d.db })

unfoldable pub deleting : Host → Host → VmName → Option VmEntry → VmDatabase → Update
deleting h₁ h₂ name none d = (d, some not_found)
deleting h₁ h₂ name (some e) d = remove_locked h₂ name (hand_over h₁ e d)

-- `Delete`
unfoldable pub delete : Host → Host → VmName → VmDatabase → Update
unfolding deleting remove_locked
delete h₁ h₂ name d = deleting h₁ h₂ name (get_entry_by_name name d) d
