-- ===== src/VmDatabase/Lookups.antt =====
-- The read-only methods of cmd/mulchd/server/vm_database.go.
use mulch.Prelude.{
  ℕ, ◌+◌, Bool, true, ◌&&◌, Option, none, some, List, [], ◌∷◌, ◌++◌, eqb, ltb, if◌then◌else◌, ◌==◌,
}
use mulch.GoMap
use mulch.GoMap.{Map}
use mulch.Text.{Str, str_eq}
use mulch.VmName.{VmName, id}
use mulch.Vm.{Vm, VmEntry}
use mulch.VmDatabase.{VmDatabase}

-- `GetNames`, and `GetGreenhouseNames` on the greenhouse
unfoldable pub names_of : Map Str VmEntry → List VmName
names_of [] = []
names_of ((k, e) ∷ m) = e.name ∷ names_of m

abbrev pub get_names : VmDatabase → List VmName
get_names d = names_of d.db

-- `GetEntryByName`, `getEntryByID`; `GetGreenhouseEntryByName` on the greenhouse
abbrev pub get_entry_by_name : VmName → VmDatabase → Option VmEntry
get_entry_by_name n d = GoMap.get (id n) d.db

vm_of : Option VmEntry → Option Vm
vm_of none = none
vm_of (some e) = some e.vm

-- `GetByName`
unfoldable pub get_by_name : VmName → VmDatabase → Option Vm
unfolding vm_of
get_by_name n d = vm_of (get_entry_by_name n d)

-- `IsVMActive`; `none` is the error
pub is_vm_active : VmName → VmDatabase → Option Bool
is_vm_active n d = elim (get_entry_by_name n d) [ none ↦ none | some e ↦ some e.active ]

-- `entry.Name.Revision > maxRevision`, where -1 is `none`
abbrev pub above : ℕ → Option ℕ → Bool
above r none = true
above r (some m) = ltb m r

-- The loop of `GetActiveEntryByName`.
unfoldable pub max_active : Str → Map Str VmEntry → Option ℕ → Option ℕ
max_active n [] max = max
max_active n ((k, e) ∷ m) max = max_active n m (
    if (e.name.name == n && above e.name.revision max) && e.active
    then some e.name.revision
    else max)

unfoldable pub active_at : Str → Option ℕ → VmDatabase → Option (Option VmEntry)
active_at n none d = none
active_at n (some r) d = some (get_entry_by_name (record { name = n; revision = r }) d)

-- `GetActiveEntryByName`: `none` is the error; `some none` would be a nil entry without an error.
unfoldable pub get_active_entry_by_name : Str → VmDatabase → Option (Option VmEntry)
unfolding active_at
get_active_entry_by_name n d = active_at n (max_active n d.db none) d

-- The loop of `GetNextRevisionForName`.
unfoldable pub max_revision : Str → Map Str VmEntry → Option ℕ → Option ℕ
max_revision n [] max = max
max_revision n ((k, e) ∷ m) max =
    max_revision n m
      (if e.name.name == n && above e.name.revision max then some e.name.revision else max)

abbrev pub next : Option ℕ → ℕ
next none = 0
next (some r) = r + 1

-- `GetNextRevisionForName`
unfoldable pub get_next_revision : Str → VmDatabase → ℕ
get_next_revision n d = next (max_revision n d.db none)

-- `GetCountForName`
unfoldable pub count_name : Str → Map Str VmEntry → ℕ
count_name n [] = 0
count_name n ((k, e) ∷ m) = let c = count_name n m in if e.name.name == n then c + 1 else c

find_uuid : Str → List VmEntry → Option VmEntry
find_uuid uuid [] = none
find_uuid uuid (e ∷ es) = if e.vm.secret_uuid == uuid then some e else find_uuid uuid es

-- `GetEntryBySecretUUID`: the database first, then the greenhouse
pub get_entry_by_secret_uuid : Str → VmDatabase → Option VmEntry
unfolding find_uuid
get_entry_by_secret_uuid uuid d = find_uuid uuid (GoMap.values d.db ++ GoMap.values d.greenhouse)

find_address : ℕ → List VmEntry → Option VmEntry
find_address a [] = none
find_address a (e ∷ es) = if eqb e.vm.address a then some e else find_address a es

-- `GetEntryByVM`: by the pointer
pub get_entry_by_vm : Vm → VmDatabase → Option VmEntry
unfolding find_address
get_entry_by_vm vm d = find_address vm.address (GoMap.values d.db)

named : Str → List VmEntry → List VmEntry
named n [] = []
named n (e ∷ es) = let rest = named n es in if e.name.name == n then e ∷ rest else rest

-- `SearchGreenhouseEntries`
pub search_greenhouse_entries : Str → VmDatabase → List VmEntry
unfolding named
search_greenhouse_entries n d = named n (GoMap.values d.greenhouse)
