-- ===== src/Lifecycle/Rollback.antt =====
-- `NewVM` of cmd/mulchd/server/vm.go as a transaction on the database of machines.
use mulch.Prelude.{◌≡◌, refl, ◌∙◌, ap, Bool, true, Option, none, some, List, ◌==◌, if◌then◌else◌}
use mulch.GoMap.{has}
use mulch.Text.{Str, str_eq}
use mulch.VmName.{VmName, id}
use mulch.Vm.{VmConfig}
use mulch.VmDatabase.{VmDatabase, VmdbError}
use mulch.VmDatabase.Lookups.{get_entry_by_name, get_next_revision}
use mulch.VmDatabase.Update.{add}
use mulch.Lifecycle.{World, Env, Call}
use mulch.Lifecycle.Create.{new_vm}
use mulch.Lifecycle.Steps.{State, Ending, Ends}
use mulch.Lifecycle.Kept.{Allows}
use mulch.Lifecycle.Parts.{AllowsHouse}
use mulch.Lifecycle.Built.{AddsTo, new_vm-Triple}
use mulch.Lifecycle.Names.{
  has-save, has-set_active_revision, has-change_vm, added, has-add, has-add_to_greenhouse,
  has-delete_from_greenhouse,
}

-- The names of the database are those for which the test holds.
abbrev pub NamesAre : (Str → Bool) → State
NamesAre p d l = (k : Str) → has k d.db ≡ p k

pub NamesAre-Allows : (p : Str → Bool) → Allows (NamesAre p)
NamesAre-Allows p = record {
  grows = λ d l c h. h;
  saves = λ h d l q k. has-save k h d ∙ q k;
  writes = λ name f d l q k. has-change_vm (id name) k f (get_entry_by_name name d) d.db refl ∙ q k;
  activates = λ h n r d l q k. has-set_active_revision k h n r d ∙ q k;
}

NamesAre-AllowsHouse : (p : Str → Bool) → AllowsHouse (NamesAre p)
NamesAre-AllowsHouse p = record {
  enters = λ h vm n d l q k. has-add_to_greenhouse k h vm n d ∙ q k;
  leaves = λ n d l q k. has-delete_from_greenhouse k n d ∙ q k;
}

-- The names before, and one more.
abbrev pub with_name : VmName → VmDatabase → Str → Bool
with_name name d k = if id name == k then true else has k d.db

-- The names before.
abbrev pub names_before : VmDatabase → Str → Bool
names_before d k = has k d.db

add-Ending :
    (name : VmName) (d₀ d' : VmDatabase) (e : Option VmdbError) (l : List Call)
    → ((k : Str) → has k d'.db ≡ added e (id name == k) (has k d₀.db))
    → Ending (NamesAre (names_before d₀)) (NamesAre (with_name name d₀)) e d' l
add-Ending name d₀ d' none l h = h
add-Ending name d₀ d' (some e) l h = h

add-AddsTo :
    (name : VmName) (d₀ : VmDatabase)
    → AddsTo (NamesAre (names_before d₀)) (NamesAre (with_name name d₀)) name
add-AddsTo name d₀ h vm active d l q =
    add-Ending name d₀ (add h vm name active d).0 (add h vm name active d).1 l (λ k.
      has-add k h vm name active d ∙ ap (added (add h vm name active d).1 (id name == k)) (q k))

-- `NewVM` is a transaction on the names of the database, whatever libvirt, the scripts and the disks answer: if it fails, the names are those before; if it succeeds, they are those before, and the name of the next revision of the configuration's name.
pub new_vm-transaction :
    (env : Env) (config : VmConfig) (active allow : Bool) (author : Str) (w : World)
    → let name : VmName = record {
      name = config.name;
      revision = get_next_revision config.name w.vmdb;
    } in
      Ends
        (NamesAre (names_before w.vmdb))
        (NamesAre (with_name name w.vmdb))
        (new_vm env config active allow author w)
new_vm-transaction env config active allow author w =
    let name : VmName = record {
      name = config.name;
      revision = get_next_revision config.name w.vmdb;
    } in
    let before = names_before w.vmdb in
    let later = with_name name w.vmdb in
    new_vm-Triple (NamesAre before) (NamesAre later) (NamesAre-Allows before)
      (NamesAre-AllowsHouse before) (NamesAre-Allows later) (NamesAre-AllowsHouse later) env config
      active allow author w (add-AddsTo name w.vmdb) (λ k. refl)
