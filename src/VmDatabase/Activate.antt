-- ===== src/VmDatabase/Activate.antt =====
-- `SetActiveRevision` and `Add` as seen by `GetActiveEntryByName`.
use mulch.Prelude.{
  ◌≡◌, refl, ap, sym, ◌∙◌, Option, none, some, [], ◌∷◌, arith, Option-cases, inl, inr,
}
use mulch.GoMap
use mulch.GoMap.{Map}
use mulch.Text.{Str, str_eq, str_beq_iff}
use mulch.Domain.{Domain}
use mulch.VmName.{VmName, id, IsVmName}
use mulch.VmName.RoundTrip.{id-injective}
use mulch.Vm.{VmEntry}
use mulch.VmDatabase.{VmDatabase, VmdbError, Host, Update, save}
use mulch.VmDatabase.GenDomains.{gen_entry, gen_domains}
use mulch.VmDatabase.Lookups.{get_by_name, get_active_entry_by_name}
use mulch.VmDatabase.Update.{unless_error, set_active, check_revision, set_active_revision}
use mulch.VmDatabase.Invariant.{Db, IsKeyed, IsConsistent}
use mulch.VmDatabase.Keeps.{db-save, name-gen_entry}
use mulch.VmDatabase.Methods.{set_active_revision-IsConsistent}
use mulch.VmDatabase.Active.{find_active, found_active, get_active_entry_by_name_lem}

abbrev name_of : Option VmEntry → Option VmName
name_of none = none
name_of (some e) = some e.name

-- The name of the active entry.
abbrev pub active_name : Str → Db → Option VmName
active_name n m = name_of (find_active n m)

active_name-gen_domains :
    (n : Str) (m : Db) (o : Option (Map Str Domain))
    → active_name n (gen_domains m o).0 ≡ active_name n m
unfolding gen_domains find_active
active_name-gen_domains n [] o = refl
active_name-gen_domains n ((k, e) ∷ m) o =
    ground (arith, name-gen_entry e o, active_name-gen_domains n m (gen_entry e o).1)

active_name-save :
    (h : Host) (n : Str) (d : VmDatabase) → active_name n (save h d).0.db ≡ active_name n d.db
active_name-save h n d = elim (db-save h d) [
  | inl e ↦ rw e refl
  | inr e ↦ rw e (active_name-gen_domains n d.db (some []))
]

-- With the revision in the database, it becomes the active one.
active_name-set_active :
    (v : VmName) (m : Db) (e : VmEntry)
    → IsVmName v
    → IsKeyed m
    → GoMap.get (id v) m ≡ some e
    → active_name v.name (set_active v.name (some v.revision) m) ≡ some v
unfolding set_active find_active GoMap.get
active_name-set_active v [] e w k h = absurd (cc)
active_name-set_active v ((i, x) ∷ m) e w k h = ground (
  arith,
  active_name-set_active v m e,
  str_beq_iff x.name.name v.name,
  str_beq_iff i (id v),
  id-injective x.name v,
)

active_name-set_none : (n : Str) (m : Db) → active_name n (set_active n none m) ≡ none
unfolding set_active find_active
active_name-set_none n [] = refl
active_name-set_none n ((i, x) ∷ m) = ground (arith, active_name-set_none n m)

get-vm_verdict :
    (h : Host) (v : VmName) (d : VmDatabase)
    → check_revision h v.name (some v.revision) d ≡ none
    → (e : VmEntry) × (GoMap.get (id v) d.db ≡ some e)
unfolding check_revision get_by_name
get-vm_verdict h v d e = elim (Option-cases (GoMap.get (id v) d.db)) [
  | inl q ↦ absurd (ground arith)
  | inr q ↦ q
]

unless_error-none :
    (o : Option VmdbError) (d : VmDatabase) (u : Update)
    → (unless_error o d u).1 ≡ none
    → (o ≡ none) × (unless_error o d u ≡ u)
unless_error-none none d u h = (refl, refl)
unless_error-none (some e) d u h = absurd (cc)

-- After a `SetActiveRevision` without an error, the active entry of the name is the revision asked
-- for. The database is consistent, and the name with the revision is one that `ParseVMName` gives.
pub set_active_revision_lem :
    (h : Host) (v : VmName) (d : VmDatabase)
    → IsVmName v
    → IsConsistent d.db
    → (set_active_revision h v.name (some v.revision) d).1 ≡ none
    → active_name v.name (set_active_revision h v.name (some v.revision) d).0.db ≡ some v
unfolding set_active_revision
set_active_revision_lem h v d w c e =
    let d' = record d { db = set_active v.name (some v.revision) d.db } in
    let (passed, same) =
      unless_error-none (check_revision h v.name (some v.revision) d) d (save h d') e in
    let (x, there) = get-vm_verdict h v d passed in
    rw (same, active_name-save) (active_name-set_active v d.db x w c.keyed there)

-- After a `SetActiveRevision` of RevisionNone without an error, the name has no active entry.
set_active_revision-none :
    (h : Host) (n : Str) (d : VmDatabase)
    → (set_active_revision h n none d).1 ≡ none
    → active_name n (set_active_revision h n none d).0.db ≡ none
unfolding set_active_revision
set_active_revision-none h n d e =
    let d' = record d { db = set_active n none d.db } in
    let (passed, same) = unless_error-none (check_revision h n none d) d (save h d') e in
    rw (same, active_name-save) (active_name-set_none n d.db)

some_eq : {m n : VmName} → some m ≡ some n → m ≡ n
some_eq h = cc

-- The lookup of the active entry after `SetActiveRevision`: without an error it finds an entry of
-- that name and that revision. The database is consistent, and the name with the revision is one
-- that `ParseVMName` gives.
pub get_active-set_active_revision :
    (h : Host) (v : VmName) (d : VmDatabase)
    → IsVmName v
    → IsConsistent d.db
    → (set_active_revision h v.name (some v.revision) d).1 ≡ none
    → (e : VmEntry) × (get_active_entry_by_name v.name
          (set_active_revision h v.name (some v.revision) d).0
        ≡ some (some e))
      × (e.name ≡ v)
get_active-set_active_revision h v d w c e = go (find_active v.name d'.db) refl
  where
    d' : VmDatabase
    d' = (set_active_revision h v.name (some v.revision) d).0

    go :
        (o : Option VmEntry)
        → find_active v.name d'.db ≡ o
        → (x : VmEntry) × (get_active_entry_by_name v.name d' ≡ some (some x)) × (x.name ≡ v)
    go none q = absurd (cc (set_active_revision_lem h v d w c e))
    go (some x) q = (
      x,
      get_active_entry_by_name_lem v.name d'
            (set_active_revision-IsConsistent h v.name (some v.revision) d c)
          ∙ ap found_active q,
      some_eq (sym (ap name_of q) ∙ set_active_revision_lem h v d w c e),
    )
