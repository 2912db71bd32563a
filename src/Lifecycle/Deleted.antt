-- ===== src/Lifecycle/Deleted.antt =====
-- What `VMDelete` of cmd/mulchd/server/vm.go has done when it reports no error.
use mulch.Prelude.{
  suc, ◌≡◌, refl, ◌∙◌, ap, true, false, not, Option, none, some, List, arith, Bool-cases, inl, inr,
  Outcome, ok, err, panic, if◌then◌else◌,
}
use mulch.GoMap.{has, remove}
use mulch.GoMap.Laws.{beq_refl}
use mulch.Text.{str_eq}
use mulch.VmName.{VmName, id}
use mulch.Vm.{VmEntry}
use mulch.VmDatabase.{VmDatabase, VmdbError, Host, Update}
use mulch.VmDatabase.Lookups.{get_entry_by_name}
use mulch.VmDatabase.Update.{delete, deleting, remove_locked, hand_over}
use mulch.Lifecycle.{
  World, Env, Act, Call, MachineError, after, ◌>>=◌, require, call, on_vmdb, found_entry, get_entry,
  rebuild_leases,
}
use mulch.Lifecycle.Delete.{
  get_state, force_stop, delete_disk, delete_entry, remove_machine, delete_machine, delete_unlocked,
  vm_delete,
}
use mulch.Lifecycle.Steps.{
  State, Holds, Keeps, Ends, Ending, Triple, bind-Triple, vmdb_result-Ends, rebuild_leases-Keeps,
}
use mulch.Lifecycle.Names.{has-save, has-remove}
use mulch.Lifecycle.Safe.{undefined}

-- Nothing is asked.
abbrev pub Top : State
Top d l = Unit

abbrev IsUndefined : VmName → State
IsUndefined name d l = undefined (id name) l ≡ true

-- The machine is gone from the database, and its domain is undefined.
abbrev pub IsGone : VmName → State
IsGone name d l = (has (id name) d.db ≡ false) × (undefined (id name) l ≡ true)

top : {A : Type 0} (m : Act A) → Keeps Top m
top m w q = tt

after_Top-Ends :
    {A B : Type 0} (P R : State) (f : A → Act B) (r : World × Outcome MachineError A)
    → ((a : A) (w : World) → Holds P w → Ends Top R (f a w))
    → Ends Top P r
    → Ends Top R (after f r)
unfolding after Ends
after_Top-Ends P R f (w, ok a) k h = k a w h
after_Top-Ends P R f (w, err e) k h = tt
after_Top-Ends P R f (w, panic) k h = tt

-- A step that reaches `P`, and one that goes on from there to `R`.
seq-Triple :
    {A B : Type 0} (P R : State) (m : Act A) (f : A → Act B)
    → Triple Top P m
    → ((a : A) (w : World) → Holds P w → Ends Top R (f a w))
    → Triple Top R (m >>= f)
unfolding ◌>>=◌
seq-Triple P R m f h k w q = after_Top-Ends P R f (m w) k (h w q)

call-undefine :
    (env : Env) (name : VmName) → Triple Top (IsUndefined name) (call env (Call.undefine name))
unfolding call Ends
call-undefine env name w q = elim (Bool-cases (env.answer w.clock)) [
  | inl e ↦ rw e (ground (arith, beq_refl (id name)))
  | inr e ↦ rw e tt
]

remove_locked-gone :
    (h : Host) (n : VmName) (u : Update)
    → (remove_locked h n u).1 ≡ none
    → has (id n) (remove_locked h n u).0.db ≡ false
unfolding remove_locked
remove_locked-gone h n (d, some e) f = absurd (ground (arith, f))
remove_locked-gone h n (d, none) f =
    has-save (id n) h (record d { db = remove (id n) d.db })
    ∙ has-remove (id n) (id n) d.db
    ∙ ap (λ b. if b then false else has (id n) d.db) (beq_refl (id n))

deleting-gone :
    (h₁ h₂ : Host) (n : VmName) (o : Option VmEntry) (d : VmDatabase)
    → (deleting h₁ h₂ n o d).1 ≡ none
    → has (id n) (deleting h₁ h₂ n o d).0.db ≡ false
unfolding deleting
deleting-gone h₁ h₂ n none d f = absurd (ground (arith, f))
deleting-gone h₁ h₂ n (some e) d f = remove_locked-gone h₂ n (hand_over h₁ e d) f

pub delete-gone :
    (h₁ h₂ : Host) (n : VmName) (d : VmDatabase)
    → (delete h₁ h₂ n d).1 ≡ none
    → has (id n) (delete h₁ h₂ n d).0.db ≡ false
unfolding delete
delete-gone h₁ h₂ n d f = deleting-gone h₁ h₂ n (get_entry_by_name n d) d f

Ending-IsGone :
    (n : VmName) (e : Option VmdbError) (d : VmDatabase) (l : List Call)
    → (e ≡ none → has (id n) d.db ≡ false)
    → IsUndefined n d l
    → Ending Top (IsGone n) e d l
Ending-IsGone n none d l h u = (h refl, u)
Ending-IsGone n (some e) d l h u = tt

-- The entry goes, the domain being undefined.
delete_entry-Ends :
    (env : Env) (name : VmName) (w : World)
    → Holds (IsUndefined name) w
    → Ends Top (IsGone name) (delete_entry env name w)
unfolding delete_entry on_vmdb
delete_entry-Ends env name w u =
    let h₁ : Host = env.host w.clock in
    let h₂ : Host = env.host (suc w.clock) in
    let r : Update = delete h₁ h₂ name w.vmdb in
    vmdb_result-Ends Top (IsGone name) (record w { clock = suc (suc w.clock) }) r
      (Ending-IsGone name r.1 r.0 w.done (delete-gone h₁ h₂ name w.vmdb) u)

remove_machine-Triple :
    (env : Env) (name : VmName) → Triple Top (IsGone name) (remove_machine env name)
unfolding remove_machine
remove_machine-Triple env name =
    seq-Triple (IsUndefined name) (IsGone name) (call env (Call.undefine name))
      (λ _. delete_entry env name) (call-undefine env name) (λ _. delete_entry-Ends env name)

pub keeps-Ends :
    {A : Type 0} (R : State) (r : World × Outcome MachineError A) → Holds R r.0 → Ends Top R r
unfolding Ends
keeps-Ends R (w, ok a) h = h
keeps-Ends R (w, err e) h = tt
keeps-Ends R (w, panic) h = tt

vm_delete-Ends :
    (env : Env) (name : VmName) (w : World) → Ends Top (IsGone name) (vm_delete env name w)
unfolding vm_delete delete_unlocked delete_machine
vm_delete-Ends env name w =
    let gone = IsGone name in
    bind-Triple Top gone (get_entry name) _ (top (get_entry name))
      (λ e.
        bind-Triple Top gone (require (not e.vm.locked) MachineError.is_locked) _ (λ w q. tt)
          (λ _.
            bind-Triple Top gone (call env (Call.find_domain name)) _ (λ w q. tt)
              (λ _.
                bind-Triple Top gone (get_state env name) _ (λ w q. tt)
                  (λ s.
                    bind-Triple Top gone (force_stop env name s) _ (λ w q. tt)
                      (λ _.
                        bind-Triple Top gone (delete_disk env name) _ (λ w q. tt)
                          (λ _.
                            seq-Triple gone gone (remove_machine env name) (λ _. rebuild_leases env)
                              (remove_machine-Triple env name)
                              (λ _ w' h.
                                keeps-Ends gone (rebuild_leases env w')
                                  (rebuild_leases-Keeps gone env w' h))))))))
      w tt

Ends-ok :
    {A : Type 0} (R : State) (r : World × Outcome MachineError A) (a : A)
    → r.1 ≡ ok a
    → Ends Top R r
    → Holds R r.0
unfolding Ends
Ends-ok R (w, ok b) a h e = e
Ends-ok R (w, err x) a h e = absurd (ground (arith, h))
Ends-ok R (w, panic) a h e = absurd (ground (arith, h))

-- If `VMDelete` reports no error, whatever libvirt and the disks answer, then the machine is gone from the database, and libvirt has undefined its domain.
pub vm_delete-IsGone :
    (env : Env) (name : VmName) (w : World)
    → (vm_delete env name w).1 ≡ ok tt
    → let w' = (vm_delete env name w).0 in IsGone name w'.vmdb w'.done
vm_delete-IsGone env name w h =
    Ends-ok (IsGone name) (vm_delete env name w) tt h (vm_delete-Ends env name w)

get_entry-some :
    (name : VmName) (w : World) (e : VmEntry)
    → get_entry_by_name name w.vmdb ≡ some e
    → get_entry name w ≡ (w, ok e)
unfolding get_entry found_entry
get_entry-some name w e h = ap (λ o. found_entry o w) h

-- A locked machine: `VMDelete` does nothing at all, and says so.
vm_delete-locked :
    (env : Env) (name : VmName) (w : World) (e : VmEntry)
    → get_entry_by_name name w.vmdb ≡ some e
    → e.vm.locked ≡ true
    → vm_delete env name w ≡ (w, err MachineError.is_locked)
unfolding vm_delete delete_unlocked ◌>>=◌ after
vm_delete-locked env name w e h l =
    ap (after (delete_unlocked env name)) (get_entry-some name w e h)
    ∙ ap (λ b. after (λ _. delete_machine env name) (require (not b) MachineError.is_locked w)) l
