-- ===== src/Lifecycle/Safe.antt =====
-- A machine leaves the database only after libvirt has removed its domain.
use mulch.Prelude.{
  ◌≡◌, refl, ◌∙◌, ap, inl, inr, Bool, true, false, ◌||◌, Option, none, some, List, ◌∷◌, any, arith,
  Bool-cases, ◌==◌,
}
use mulch.GoMap.{has}
use mulch.Text.{Str, str_eq}
use mulch.VmName.{VmName, id}
use mulch.VmDatabase
use mulch.VmDatabase.{VmDatabase, VmdbError, Host, Update}
use mulch.VmDatabase.Lookups.{get_entry_by_name}
use mulch.VmDatabase.Update.{
  add, set_active_revision, delete, add_to_greenhouse, delete_from_greenhouse,
}
use mulch.Lifecycle.{World, Env, Call, change_vm}
use mulch.Lifecycle.Steps.{State, Ending}
use mulch.Lifecycle.Kept.{Allows}
use mulch.Lifecycle.Parts.{AllowsHouse}
use mulch.Lifecycle.Built.{AddsTo}
use mulch.Lifecycle.Rebuild.{vm_rebuild}
use mulch.Lifecycle.Rebuilt.{vm_rebuild-Keeps}
use mulch.Lifecycle.Names.{
  has-save, has-set_active_revision, has-change_vm, added, has-add, has-delete,
  has-add_to_greenhouse, has-delete_from_greenhouse,
}

-- Libvirt has undefined a domain of that id.
abbrev pub is_undefine : Str → Call → Bool
is_undefine k (Call.undefine name) = id name == k
is_undefine k _ = false

abbrev pub undefined : Str → List Call → Bool
undefined k = any (is_undefine k)

-- The machine of an id is in the database, unless libvirt has undefined its domain.
abbrev pub IsThere : Str → State
IsThere k d l = (has k d.db || undefined k l) ≡ true

same-IsThere :
    (k : Str) (d d' : VmDatabase) (l : List Call)
    → has k d'.db ≡ has k d.db
    → IsThere k d l
    → IsThere k d' l
same-IsThere k d d' l e h = ap (λ b. b || undefined k l) e ∙ h

delete-IsThere :
    (k : Str) (h₁ h₂ : Host) (n : VmName) (d : VmDatabase) (l : List Call)
    → IsThere k d (Call.undefine n ∷ l)
    → IsThere k (delete h₁ h₂ n d).0 (Call.undefine n ∷ l)
delete-IsThere k h₁ h₂ n d l h = elim (Bool-cases (id n == k)) [
  | inl e ↦ ground (arith, e)
  | inr e ↦ same-IsThere k d (delete h₁ h₂ n d).0 (Call.undefine n ∷ l) (has-delete k h₁ h₂ n d e) h
]

IsThere-Allows : (k : Str) → Allows (IsThere k)
IsThere-Allows k = record {
  grows = λ d l c h. ground (arith, h);
  saves = λ h d l q. same-IsThere k d (VmDatabase.save h d).0 l (has-save k h d) q;
  writes = λ name f d l q.
      same-IsThere k d (record d { db = change_vm f (get_entry_by_name name d) (id name) d.db }) l
        (has-change_vm (id name) k f (get_entry_by_name name d) d.db refl) q;
  activates = λ h n r d l q.
      same-IsThere k d (set_active_revision h n r d).0 l (has-set_active_revision k h n r d) q;
}

IsThere-AllowsHouse : (k : Str) → AllowsHouse (IsThere k)
IsThere-AllowsHouse k = record {
  enters = λ h vm n d l q.
      same-IsThere k d (add_to_greenhouse h vm n d).0 l (has-add_to_greenhouse k h vm n d) q;
  leaves = λ n d l q.
      same-IsThere k d (delete_from_greenhouse n d).0 l (has-delete_from_greenhouse k n d) q;
}

added-or :
    (o : Option VmdbError) (same there gone : Bool)
    → (there || gone) ≡ true
    → (added o same there || gone) ≡ true
added-or none true there gone h = refl
added-or none false there gone h = h
added-or (some e) same there gone h = h

Ending-same :
    (Q : State) (e : Option VmdbError) (d : VmDatabase) (l : List Call) → Q d l → Ending Q Q e d l
Ending-same Q none d l h = h
Ending-same Q (some e) d l h = h

add-IsThere : (k : Str) (n : VmName) → AddsTo (IsThere k) (IsThere k) n
add-IsThere k n h vm active d l q =
    Ending-same (IsThere k) (add h vm n active d).1 (add h vm n active d).0 l (
      ap (λ b. b || undefined k l) (has-add k h vm n active d)
      ∙ added-or (add h vm n active d).1 (id n == k) (has k d.db) (undefined k l) q)

-- Whatever libvirt, the scripts and the disks answer, and whatever `VMRebuild` reports: if, before it, a machine of an id is in the database, or libvirt has undefined a domain of that id, then the same holds after it. So it takes no machine from the database whose domain libvirt has not undefined.
pub vm_rebuild-IsThere :
    (env : Env) (k : Str) (name : VmName) (lock : Bool) (author : Str) (w : World)
    → IsThere k w.vmdb w.done
    → let w' = (vm_rebuild env name lock author w).0 in IsThere k w'.vmdb w'.done
vm_rebuild-IsThere env k name lock author =
    vm_rebuild-Keeps (IsThere k) (IsThere-Allows k) (IsThere-AllowsHouse k) (delete-IsThere k) env
      name lock author (add-IsThere k)
