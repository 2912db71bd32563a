-- ===== src/VmDatabase/Methods.antt =====
-- `Add`, `SetActiveRevision` and `Delete` keep the database consistent, whatever they report.
use mulch.Prelude.{
  ℕ, ◌≤◌, ◌≡◌, refl, Bool, true, false, Option, none, some, [], ◌∷◌, arith, if◌then◌else◌,
  Bool-cases, Option-cases, inl, inr, Outcome, ok, err, panic,
}
use mulch.GoMap
use mulch.GoMap.Laws.{IsMap, put-IsMap, remove-IsMap, has-eq-get}
use mulch.Text.{Str, str_eq, str_beq_iff}
use mulch.VmName.{VmName, id, IsVmName}
use mulch.Vm.{Vm, VmEntry}
use mulch.VmDatabase.{VmDatabase, VmdbError, Host, Update, save}
use mulch.VmDatabase.Lookups.{get_names, get_entry_by_name}
use mulch.VmDatabase.Update.{
  unless_error, deactivate, set_active, check_conflicts, check_revision, undo_failed, add_locked,
  add, set_active_revision, activate, hand_over, highest_other, remove_locked, deleting, delete,
}
use mulch.VmDatabase.Invariant.{
  Db, SameNames, IsKeyed, IsConsistent, SameNames-IsMap, SameNames-IsKeyed, SameNames-deactivate,
  SameNames-set_active, SameNames-get, active_count-deactivate, active_count-put,
  active_count-remove,
}
use mulch.VmDatabase.Keeps.{
  revision_count, active_count-set_active, revision_count_le, revision_count-none,
  save-IsConsistent,
}

put-IsKeyed :
    (e : VmEntry) (m : Db) → IsVmName e.name → IsKeyed m → IsKeyed (GoMap.put (id e.name) e m)
unfolding GoMap.put
put-IsKeyed e [] v h = (refl, v, tt)
put-IsKeyed e ((i, f) ∷ m) v h = ground (arith, put-IsKeyed e m v)

remove-IsKeyed : (k : Str) (m : Db) → IsKeyed m → IsKeyed (GoMap.remove k m)
unfolding GoMap.remove
remove-IsKeyed k [] h = tt
remove-IsKeyed k ((i, f) ∷ m) h = ground (arith, remove-IsKeyed k m)

remove-IsConsistent : (k : Str) (m : Db) → IsConsistent m → IsConsistent (GoMap.remove k m)
remove-IsConsistent k m c = record {
  is_map = remove-IsMap k m c.is_map;
  keyed = remove-IsKeyed k m c.keyed;
  single = λ n. omega (arith, c.single n, active_count-remove k n m);
}

revision_count_bound :
    (n : Str) (r : Option ℕ) (m : Db) → IsMap m → IsKeyed m → revision_count n r m ≤ 1
revision_count_bound n none m h k = omega (arith, revision_count-none n m)
revision_count_bound n (some r) m h k = revision_count_le n r m h k

set_active-IsConsistent :
    (n : Str) (r : Option ℕ) (m : Db) → IsConsistent m → IsConsistent (set_active n r m)
set_active-IsConsistent n r m c = record {
  is_map = SameNames-IsMap m (set_active n r m) (SameNames-set_active n r m) c.is_map;
  keyed = SameNames-IsKeyed m (set_active n r m) (SameNames-set_active n r m) c.keyed;
  single = λ j. ground (
    arith,
    c.single j,
    active_count-set_active n j r m,
    revision_count_bound n r m c.is_map c.keyed,
  );
}

unless_error-IsConsistent :
    (o : Option VmdbError) (d : VmDatabase) (u : Update)
    → IsConsistent d.db
    → IsConsistent u.0.db
    → IsConsistent (unless_error o d u).0.db
unless_error-IsConsistent none d u c k = k
unless_error-IsConsistent (some e) d u c k = c

-- `SetActiveRevision` keeps the database consistent, whatever it reports.
pub set_active_revision-IsConsistent :
    (h : Host) (n : Str) (r : Option ℕ) (d : VmDatabase)
    → IsConsistent d.db
    → IsConsistent (set_active_revision h n r d).0.db
unfolding set_active_revision
set_active_revision-IsConsistent h n r d c =
    unless_error-IsConsistent (check_revision h n r d) d
      (save h (record d { db = set_active n r d.db })) c
      (save-IsConsistent h (record d { db = set_active n r d.db })
        (set_active-IsConsistent n r d.db c))

-- The entries to which `Add` adds its own.
abbrev others : Str → Bool → Db → Db
others n active m = if active then deactivate n m else m

SameNames-refl : (m : Db) → SameNames m m
SameNames-refl [] = tt
SameNames-refl ((k, e) ∷ m) = (refl, refl, SameNames-refl m)

others-SameNames : (n : Str) (active : Bool) (m : Db) → SameNames m (others n active m)
others-SameNames n true m = SameNames-deactivate n m
others-SameNames n false m = SameNames-refl m

put-IsConsistent :
    (e : VmEntry) (m : Db)
    → IsVmName e.name
    → GoMap.get (id e.name) m ≡ none
    → IsConsistent m
    → IsConsistent (GoMap.put (id e.name) e (others e.name.name e.active m))
put-IsConsistent e m v fresh c = record {
  is_map = put-IsMap (id e.name) e l (SameNames-IsMap m l same c.is_map);
  keyed = put-IsKeyed e l v (SameNames-IsKeyed m l same c.keyed);
  single = λ n. ground (
    arith,
    c.single n,
    active_count-put (id e.name) n e l (SameNames-get m l (id e.name) same fresh),
    active_count-deactivate e.name.name n m,
    str_beq_iff e.name.name n,
  );
}
  where
    l : Db
    l = others e.name.name e.active m

    same : SameNames m l
    same = others-SameNames e.name.name e.active m

undo_failed-IsConsistent :
    (n : VmName) (u : Update) → IsConsistent u.0.db → IsConsistent (undo_failed n u).0.db
unfolding undo_failed
undo_failed-IsConsistent n (d, none) c = c
undo_failed-IsConsistent n (d, some e) c = remove-IsConsistent (id n) d.db c

add_locked-IsConsistent :
    (h : Host) (vm : Vm) (n : VmName) (active : Bool) (d : VmDatabase)
    → IsVmName n
    → IsConsistent d.db
    → IsConsistent (add_locked h vm n active d).0.db
unfolding add_locked
add_locked-IsConsistent h vm n active d v c = elim (Option-cases (GoMap.get (id n) d.db)) [
  | inl e ↦
      rw (has-eq-get, e)
        (undo_failed-IsConsistent n (save h d')
          (save-IsConsistent h d' (put-IsConsistent entry d.db v e c)))
  | inr (x, e) ↦ rw (has-eq-get, e) c
]
  where
    entry : VmEntry
    entry = record { name = n; vm = vm; active = active }

    d' : VmDatabase
    d' = record d { db = GoMap.put (id n) entry (others n.name active d.db) }

-- `Add` keeps the database consistent, whatever it reports, for a name that `ParseVMName` can give.
pub add-IsConsistent :
    (h : Host) (vm : Vm) (n : VmName) (active : Bool) (d : VmDatabase)
    → IsVmName n
    → IsConsistent d.db
    → IsConsistent (add h vm n active d).0.db
unfolding add
add-IsConsistent h vm n active d v c =
    unless_error-IsConsistent (if active then check_conflicts h vm n.name d else none) d
      (add_locked h vm n active d) c (add_locked-IsConsistent h vm n active d v c)

activate-IsConsistent :
    (h : Host) (n : VmName) (o : Outcome VmdbError (Option ℕ)) (d : VmDatabase)
    → IsConsistent d.db
    → IsConsistent (activate h n o d).0.db
unfolding activate
activate-IsConsistent h n (ok none) d c = c
activate-IsConsistent h n (ok (some r)) d c = set_active_revision-IsConsistent h n.name (some r) d c
activate-IsConsistent h n (err e) d c = c
activate-IsConsistent h n panic d c = c

hand_over-IsConsistent :
    (h : Host) (e : VmEntry) (d : VmDatabase)
    → IsConsistent d.db
    → IsConsistent (hand_over h e d).0.db
unfolding hand_over
hand_over-IsConsistent h e d c = elim (Bool-cases e.active) [
  | inl a ↦ rw a (activate-IsConsistent h e.name (highest_other e.name (get_names d) d none) d c)
  | inr a ↦ rw a c
]

remove_locked-IsConsistent :
    (h : Host) (n : VmName) (u : Update)
    → IsConsistent u.0.db
    → IsConsistent (remove_locked h n u).0.db
unfolding remove_locked
remove_locked-IsConsistent h n (d, none) c =
    save-IsConsistent h (record d { db = GoMap.remove (id n) d.db })
      (remove-IsConsistent (id n) d.db c)
remove_locked-IsConsistent h n (d, some e) c = c

deleting-IsConsistent :
    (h₁ h₂ : Host) (n : VmName) (o : Option VmEntry) (d : VmDatabase)
    → IsConsistent d.db
    → IsConsistent (deleting h₁ h₂ n o d).0.db
unfolding deleting
deleting-IsConsistent h₁ h₂ n none d c = c
deleting-IsConsistent h₁ h₂ n (some e) d c =
    remove_locked-IsConsistent h₂ n (hand_over h₁ e d) (hand_over-IsConsistent h₁ e d c)

-- `Delete` keeps the database consistent, whatever it reports and whichever of its two saves fails.
pub delete-IsConsistent :
    (h₁ h₂ : Host) (n : VmName) (d : VmDatabase)
    → IsConsistent d.db
    → IsConsistent (delete h₁ h₂ n d).0.db
unfolding delete
delete-IsConsistent h₁ h₂ n d c = deleting-IsConsistent h₁ h₂ n (get_entry_by_name n d) d c
