-- ===== src/Lifecycle/Names.antt =====
-- Which names the methods of the database of machines add and remove.
use mulch.Prelude.{
  ℕ, ◌≡◌, refl, ◌∙◌, ap, inl, inr, Bool, true, false, Option, none, some, [], ◌∷◌, arith,
  Bool-cases, Option-cases, Outcome, ok, err, panic, if◌then◌else◌, ◌==◌,
}
use mulch.GoMap.{Map, has, get, put, remove}
use mulch.GoMap.Laws.{has-put, has-eq-get}
use mulch.Text.{Str, str_eq, str_beq_iff}
use mulch.Domain.{Domain}
use mulch.VmName.{VmName, id}
use mulch.Vm.{Vm, VmEntry}
use mulch.VmDatabase
use mulch.VmDatabase.{VmDatabase, VmdbError, Host, Update}
use mulch.VmDatabase.GenDomains.{gen_domains, gen_entry}
use mulch.VmDatabase.Keeps.{db-save}
use mulch.VmDatabase.Lookups.{get_entry_by_name, get_names}
use mulch.VmDatabase.Update.{
  deactivate, set_active, check_conflicts, check_revision, undo_failed, add_locked, add,
  set_active_revision, activate, hand_over, highest_other, remove_locked, deleting, delete,
  add_to_greenhouse, delete_from_greenhouse,
}
use mulch.Lifecycle.{change_vm}

abbrev Db : Type 0
Db = Map Str VmEntry

has-deactivate : (k n : Str) (m : Db) → has k (deactivate n m) ≡ has k m
unfolding has deactivate
has-deactivate k n [] = refl
has-deactivate k n ((j, e) ∷ m) = ground (arith, has-deactivate k n m)

has-set_active : (k n : Str) (r : Option ℕ) (m : Db) → has k (set_active n r m) ≡ has k m
unfolding has set_active
has-set_active k n r [] = refl
has-set_active k n r ((j, e) ∷ m) = ground (arith, has-set_active k n r m)

has-gen_domains :
    (k : Str) (m : Db) (o : Option (Map Str Domain)) → has k (gen_domains m o).0 ≡ has k m
unfolding has gen_domains
has-gen_domains k [] o = refl
has-gen_domains k ((j, e) ∷ m) o = ground (arith, has-gen_domains k m (gen_entry e o).1)

-- `save` changes no name.
pub has-save : (k : Str) (h : Host) (d : VmDatabase) → has k (VmDatabase.save h d).0.db ≡ has k d.db
has-save k h d = elim (db-save h d) [
  | inl e ↦ ap (has k) e
  | inr e ↦ ap (has k) e ∙ has-gen_domains k d.db (some [])
]

pub has-set_active_revision :
    (k : Str) (h : Host) (n : Str) (r : Option ℕ) (d : VmDatabase)
    → has k (set_active_revision h n r d).0.db ≡ has k d.db
unfolding set_active_revision
has-set_active_revision k h n r d = elim (Option-cases (check_revision h n r d)) [
  | inl e ↦ rw e (has-save k h (record d { db = set_active n r d.db }) ∙ has-set_active k n r d.db)
  | inr (x, e) ↦ rw e refl
]

pub has-remove : (k j : Str) (m : Db) → has j (remove k m) ≡ (if k == j then false else has j m)
unfolding has remove
has-remove k j [] = ground arith
has-remove k j ((i, e) ∷ m) =
    ground (arith, has-remove k j m, str_beq_iff i k, str_beq_iff i j, str_beq_iff k j)

has-put_entry :
    (k j : Str) (e : VmEntry) (m : Db) → has j (put k e m) ≡ (if k == j then true else has j m)
has-put_entry k j e m = has-put k j e m

pub has-change_vm :
    (k j : Str) (f : Vm → Vm) (o : Option VmEntry) (m : Db)
    → get k m ≡ o
    → has j (change_vm f o k m) ≡ has j m
unfolding change_vm
has-change_vm k j f none m h = refl
has-change_vm k j f (some e) m h =
    ground
      (arith, has-put_entry k j (record e { vm = f e.vm }) m, has-eq-get k m, h, str_beq_iff k j)

-- Whether a name is there after `Add`: its own is, if there is no error.
abbrev pub added : Option VmdbError → Bool → Bool → Bool
added none same there = if same then true else there
added (some e) same there = there

-- A failed save is undone.
undo_failed-added :
    (k : Str) (name : VmName) (there : Bool) (u : Update)
    → has k u.0.db ≡ (if id name == k then true else there)
    → (id name == k ≡ true → there ≡ false)
    → has k (undo_failed name u).0.db ≡ added (undo_failed name u).1 (id name == k) there
unfolding undo_failed
undo_failed-added k name there (d, none) h n = h
undo_failed-added k name there (d, some e) h n = ground (arith, has-remove (id name) k d.db, h, n)

others-has :
    (k n : Str) (active : Bool) (m : Db) → has k (if active then deactivate n m else m) ≡ has k m
others-has k n true m = has-deactivate k n m
others-has k n false m = refl

has_same : (k : Str) (n : Str) (m : Db) → has n m ≡ false → n == k ≡ true → has k m ≡ false
has_same k n m h e = ground (arith, h, e, str_beq_iff n k)

add_locked-added :
    (k : Str) (h : Host) (vm : Vm) (name : VmName) (active : Bool) (d : VmDatabase)
    → has k (add_locked h vm name active d).0.db
      ≡ added (add_locked h vm name active d).1 (id name == k) (has k d.db)
unfolding add_locked
add_locked-added k h vm name active d = elim (Bool-cases (has (id name) d.db)) [
  | inl e ↦ rw e refl
  | inr e ↦
      let entry : VmEntry = record { name = name; vm = vm; active = active } in
      let others : Db = if active then deactivate name.name d.db else d.db in
      let d' : VmDatabase = record d { db = put (id name) entry others } in
      let names : has k (VmDatabase.save h d').0.db ≡ (if id name == k then true else has k d.db) =
        has-save k h d'
        ∙ has-put_entry (id name) k entry others
        ∙ ap (λ b. if id name == k then true else b) (others-has k name.name active d.db) in
      rw e (
        undo_failed-added k name (has k d.db) (VmDatabase.save h d') names
          (has_same k (id name) d.db e))
]

-- The names after `Add`: those before, and the new one if there is no error.
pub has-add :
    (k : Str) (h : Host) (vm : Vm) (name : VmName) (active : Bool) (d : VmDatabase)
    → has k (add h vm name active d).0.db
      ≡ added (add h vm name active d).1 (id name == k) (has k d.db)
unfolding add
has-add k h vm name active d =
    elim (Option-cases (if active then check_conflicts h vm name.name d else none)) [
      | inl e ↦ rw e (add_locked-added k h vm name active d)
      | inr (x, e) ↦ rw e refl
    ]

activate-has :
    (k : Str) (h : Host) (n : VmName) (o : Outcome VmdbError (Option ℕ)) (d : VmDatabase)
    → has k (activate h n o d).0.db ≡ has k d.db
unfolding activate
activate-has k h n (ok none) d = refl
activate-has k h n (ok (some r)) d = has-set_active_revision k h n.name (some r) d
activate-has k h n (err e) d = refl
activate-has k h n panic d = refl

hand_over-has :
    (k : Str) (h : Host) (e : VmEntry) (d : VmDatabase) → has k (hand_over h e d).0.db ≡ has k d.db
unfolding hand_over
hand_over-has k h e d = elim (Bool-cases e.active) [
  | inl a ↦ rw a (activate-has k h e.name (highest_other e.name (get_names d) d none) d)
  | inr a ↦ rw a refl
]

remove_locked-has :
    (k : Str) (h : Host) (n : VmName) (u : Update)
    → (id n == k) ≡ false
    → has k (remove_locked h n u).0.db ≡ has k u.0.db
unfolding remove_locked
remove_locked-has k h n (d, some e) f = refl
remove_locked-has k h n (d, none) f =
    has-save k h (record d { db = remove (id n) d.db })
    ∙ has-remove (id n) k d.db
    ∙ ap (λ b. if b then false else has k d.db) f

deleting-has :
    (k : Str) (h₁ h₂ : Host) (n : VmName) (o : Option VmEntry) (d : VmDatabase)
    → (id n == k) ≡ false
    → has k (deleting h₁ h₂ n o d).0.db ≡ has k d.db
unfolding deleting
deleting-has k h₁ h₂ n none d f = refl
deleting-has k h₁ h₂ n (some e) d f =
    remove_locked-has k h₂ n (hand_over h₁ e d) f ∙ hand_over-has k h₁ e d

-- `Delete` removes no other name.
pub has-delete :
    (k : Str) (h₁ h₂ : Host) (n : VmName) (d : VmDatabase)
    → (id n == k) ≡ false
    → has k (delete h₁ h₂ n d).0.db ≡ has k d.db
unfolding delete
has-delete k h₁ h₂ n d f = deleting-has k h₁ h₂ n (get_entry_by_name n d) d f

-- The greenhouse does not count.
pub has-add_to_greenhouse :
    (k : Str) (h : Host) (vm : Vm) (n : VmName) (d : VmDatabase)
    → has k (add_to_greenhouse h vm n d).0.db ≡ has k d.db
unfolding add_to_greenhouse
has-add_to_greenhouse k h vm n d = elim (Bool-cases (has (id n) d.greenhouse)) [
  | inl e ↦ rw e refl
  | inr e ↦ rw e (
      has-save k h (record d {
        greenhouse = put (id n) (record { name = n; vm = vm; active = false }) d.greenhouse;
      }))
]

pub has-delete_from_greenhouse :
    (k : Str) (n : VmName) (d : VmDatabase) → has k (delete_from_greenhouse n d).0.db ≡ has k d.db
unfolding delete_from_greenhouse
has-delete_from_greenhouse k n d = elim (Bool-cases (has (id n) d.greenhouse)) [
  | inl e ↦ rw e refl
  | inr e ↦ rw e refl
]
