-- ===== src/Lifecycle/Consistent.antt =====
-- The whole life of machines keeps the database consistent.
use mulch.Prelude.{
  ◌≡◌, refl, sym, ◌∙◌, ap, inl, inr, true, false, Option, none, some, List, [], ◌∷◌, arith,
  Bool-cases, ◌==◌, if◌then◌else◌,
}
use mulch.GoMap.{has, get, put}
use mulch.Text.{Str, str_eq, str_beq_iff}
use mulch.VmName.{VmName, id, IsVmName}
use mulch.Vm.{Vm, VmEntry}
use mulch.VmDatabase.{VmDatabase, VmdbError, Host}
use mulch.VmDatabase.Invariant.{
  Db, IsConsistent, SameNames, SameNames-IsMap, SameNames-IsKeyed, active_count,
}
use mulch.VmDatabase.Keeps.{save-IsConsistent}
use mulch.VmDatabase.Methods.{
  set_active_revision-IsConsistent, add-IsConsistent, delete-IsConsistent,
}
use mulch.VmDatabase.Lookups.{get_entry_by_name}
use mulch.VmDatabase.Update.{add, add_to_greenhouse, delete_from_greenhouse}
use mulch.Lifecycle.{Call, change_vm}
use mulch.Lifecycle.Steps.{State, Ending}
use mulch.Lifecycle.Kept.{Allows, Deletes}
use mulch.Lifecycle.Parts.{AllowsHouse}
use mulch.Lifecycle.Built.{AddsTo}

SameNames-refl : (m : Db) → SameNames m m
SameNames-refl [] = tt
SameNames-refl ((k, e) ∷ m) = (refl, refl, SameNames-refl m)

some_entry : (e f : VmEntry) → some e ≡ some f → e ≡ f
some_entry e f h = cc

-- The entry that is found at the head
found_here :
    (k j : Str) (e g : VmEntry) (m : Db) → get k ((j, g) ∷ m) ≡ some e → j == k ≡ true → g ≡ e
unfolding get
found_here k j e g m h b = some_entry g e (ap (λ c. if c then some g else get k m) (sym b) ∙ h)

found_later :
    (k j : Str) (e g : VmEntry) (m : Db)
    → get k ((j, g) ∷ m) ≡ some e
    → j == k ≡ false
    → get k m ≡ some e
unfolding get
found_later k j e g m h b = ap (λ c. if c then some g else get k m) (sym b) ∙ h

SameNames-put :
    (k : Str) (e f : VmEntry) (m : Db)
    → get k m ≡ some e
    → e.name ≡ f.name
    → SameNames m (put k f m)
unfolding put
SameNames-put k e f [] h s = absurd (unfold get in ground (arith, h))
SameNames-put k e f ((j, g) ∷ m) h s = elim (Bool-cases (j == k)) [
  | inl b ↦
      rw b
        ((str_beq_iff j k).0 b, ap (λ x. x.name) (found_here k j e g m h b) ∙ s, SameNames-refl m)
  | inr b ↦ rw b (refl, refl, SameNames-put k e f m (found_later k j e g m h b) s)
]

active_count-put_same :
    (n k : Str) (e f : VmEntry) (m : Db)
    → get k m ≡ some e
    → e.name ≡ f.name
    → e.active ≡ f.active
    → active_count n (put k f m) ≡ active_count n m
unfolding put active_count
active_count-put_same n k e f [] h s a = absurd (unfold get in ground (arith, h))
active_count-put_same n k e f ((j, g) ∷ m) h s a = elim (Bool-cases (j == k)) [
  | inl b ↦ rw b (
      let same = found_here k j e g m h b in
      ground (arith, s, a, ap (λ x. x.name) same, ap (λ x. x.active) same))
  | inr b ↦ rw b (ground (arith, active_count-put_same n k e f m (found_later k j e g m h b) s a))
]

change_vm-IsConsistent :
    (k : Str) (f : Vm → Vm) (o : Option VmEntry) (m : Db)
    → get k m ≡ o
    → IsConsistent m
    → IsConsistent (change_vm f o k m)
unfolding change_vm
change_vm-IsConsistent k f none m h c = c
change_vm-IsConsistent k f (some e) m h c =
    let e' : VmEntry = record e { vm = f e.vm } in
    let same = SameNames-put k e e' m h refl in
    record {
      is_map = SameNames-IsMap m (put k e' m) same c.is_map;
      keyed = SameNames-IsKeyed m (put k e' m) same c.keyed;
      single = λ n. omega (arith, c.single n, active_count-put_same n k e e' m h refl refl);
    }

abbrev pub Consistent : State
Consistent d l = IsConsistent d.db

pub Consistent-Allows : Allows Consistent
Consistent-Allows = record {
  grows = λ d l c h. h;
  saves = λ h d l q. save-IsConsistent h d q;
  writes =
      λ name f d l q. change_vm-IsConsistent (id name) f (get_entry_by_name name d) d.db refl q;
  activates = λ h n r d l q. set_active_revision-IsConsistent h n r d q;
}

enters-IsConsistent :
    (h : Host) (vm : Vm) (n : VmName) (d : VmDatabase)
    → IsConsistent d.db
    → IsConsistent (add_to_greenhouse h vm n d).0.db
unfolding add_to_greenhouse
enters-IsConsistent h vm n d c = elim (Bool-cases (has (id n) d.greenhouse)) [
  | inl e ↦ rw e c
  | inr e ↦ rw e (save-IsConsistent h (record d { greenhouse = _ }) c)
]

leaves-IsConsistent :
    (n : VmName) (d : VmDatabase)
    → IsConsistent d.db
    → IsConsistent (delete_from_greenhouse n d).0.db
unfolding delete_from_greenhouse
leaves-IsConsistent n d c = elim (Bool-cases (has (id n) d.greenhouse)) [
  | inl e ↦ rw e c
  | inr e ↦ rw e c
]

pub Consistent-AllowsHouse : AllowsHouse Consistent
Consistent-AllowsHouse = record {
  enters = λ h vm n d l q. enters-IsConsistent h vm n d q;
  leaves = λ n d l q. leaves-IsConsistent n d q;
}

pub Consistent-Deletes : Deletes Consistent
Consistent-Deletes h₁ h₂ n d l q = delete-IsConsistent h₁ h₂ n d q

Ending-Consistent :
    (e : Option VmdbError) (d : VmDatabase) (l : List Call)
    → IsConsistent d.db
    → Ending Consistent Consistent e d l
Ending-Consistent none d l h = h
Ending-Consistent (some e) d l h = h

pub Consistent-AddsTo : (n : VmName) → IsVmName n → AddsTo Consistent Consistent n
Consistent-AddsTo n v h vm active d l q =
    Ending-Consistent (add h vm n active d).1 (add h vm n active d).0 l
      (add-IsConsistent h vm n active d v q)
