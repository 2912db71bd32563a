-- ===== src/VmStates.antt =====
-- cmd/mulchd/server/vmstate_database.go: which virtual machines are up. `running` is what VMIsRunning of
-- cmd/mulchd/server/vm.go learns from libvirt for the name of a domain, `none` being an error. A method
-- returns the database that it leaves behind, and its error (`none` is nil).
pub mod SameMap
pub mod Update
mod Tests
use mulch.Prelude.{
  ℕ, ◌+◌, ◌%◌, ◌^◌, Bool, true, false, ◌&&◌, Option, none, some, List, [], ◌∷◌, all, length, eqb,
  if◌then◌else◌, ◌==◌, Outcome, ok, err, ◌>>=◌,
}
use mulch.GoMap.{Map, get, put}
use mulch.Text.{Str, lit, str_eq}
use mulch.Disk.{Io, write_file, succeeded}
use mulch.VmName.{VmName, id, libvirt_domain_name}

abbrev pub vm_state_up : Str
vm_state_up = lit "up"

abbrev pub vm_state_down : Str
vm_state_down = lit "down"

abbrev pub States : Type 0
States = Map Str Str

pub record VmStateDatabase : Type 0 where
  pub db : States
  pub file : Option States
  pub cycles : ℕ

pub data StateError : Type 0 where
  libvirt_failed save_failed unreadable : StateError

-- What `os.Stat` and the decoder find.
pub data StateFile : Type 0 where
  missing broken : StateFile
  content : States → StateFile

-- `save`, and what its caller gets
unfoldable pub save : Io → VmStateDatabase → VmStateDatabase × Option StateError
save io d = (
  record d { file = write_file io d.db d.file },
  if succeeded io then none else some StateError.save_failed,
)

-- `load`
unfoldable pub load : StateFile → Outcome StateError VmStateDatabase
load missing = ok (record { db = []; file = none; cycles = 0 })
load broken = err StateError.unreadable
load (content states) = ok (record { db = states; file = some states; cycles = 0 })

saved : VmStateDatabase × Option StateError → Outcome StateError VmStateDatabase
saved (d, none) = ok d
saved (d, some e) = err e

-- `NewVMStateDatabase`
unfoldable pub new_vm_state_database : StateFile → Io → Outcome StateError VmStateDatabase
unfolding saved
new_vm_state_database file io = load file >>= λ d. saved (save io d)

abbrev pub state_text : Bool → Str
state_text state = if state then vm_state_up else vm_state_down

abbrev pub has_value : Str → Option Str → Bool
has_value v none = false
has_value v (some w) = v == w

-- `reflect.DeepEqual` on two maps
unfoldable pub same_entries : States → States → Bool
same_entries [] b = true
same_entries ((k, v) ∷ a) b = has_value v (get k b) && same_entries a b

unfoldable pub deep_equal : States → States → Bool
deep_equal a b = eqb (length a) (length b) && same_entries a b

module _ (prefix : Str) (running : Str → Option Bool) where
  -- The loop of `Update`
  unfoldable pub new_states : List VmName → States → Option States
  new_states [] states = some states
  new_states (name ∷ names) states = elim (running (libvirt_domain_name prefix name)) [
    | none ↦ none
    | some state ↦ new_states names (put (id name) (state_text state) states)
  ]

  unfoldable pub compare_states :
      Io → VmStateDatabase → Option States → VmStateDatabase × Option StateError
  compare_states io d none = (d, some StateError.libvirt_failed)
  compare_states io d (some states) =
      if deep_equal d.db states then (d, none) else save io (record d { db = states })

  -- `Update`
  unfoldable pub update : List VmName → Io → VmStateDatabase → VmStateDatabase × Option StateError
  unfolding compare_states
  update names io d =
      compare_states io (record d { cycles = (d.cycles + 1) % 2 ^ 64 }) (new_states names [])
