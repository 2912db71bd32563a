-- ===== src/Lifecycle/Replaced.antt =====
-- What `VMRebuild` of cmd/mulchd/server/vm.go has done when it reports no error.
use mulch.Prelude.{◌≡◌, refl, subst, Bool, false, List, Outcome, ok, err, panic}
use mulch.Text.{Str, str_eq}
use mulch.VmName.{VmName}
use mulch.Vm.{VmEntry, VmConfig}
use mulch.VmDatabase.{VmDatabase}
use mulch.VmDatabase.Lookups.{get_next_revision}
use mulch.Lifecycle.{World, Env, Act, Call, MachineError, after, ◌>>=◌, get_entry}
use mulch.Lifecycle.Create.{new_vm}
use mulch.Lifecycle.Rebuild.{with_new, check_rebuild, vm_rebuild}
use mulch.Lifecycle.Steps.{State, Ends, get_entry-Keeps}
use mulch.Lifecycle.Reads.{check_rebuild-Keeps}
use mulch.Lifecycle.Rollback.{NamesAre, with_name, names_before, new_vm-transaction}
use mulch.Lifecycle.Deleted.{Top}
use mulch.Lifecycle.Reached.{Reaches, keep_then}
use mulch.Lifecycle.Removed.{without, with_new-Reaches}

-- The names after a rebuild: those before, and the next revision of a name, but the original.
abbrev pub IsReplaced : VmName → VmDatabase → State
IsReplaced name d₀ d l =
    (n : Str) × NamesAre
      (without name (with_name (record { name = n; revision = get_next_revision n d₀ }) d₀)) d l

weaken-Ends :
    {A : Type 0} (P R : State) (r : World × Outcome MachineError A)
    → ((d : VmDatabase) (l : List Call) → P d l → R d l)
    → Ends Top P r
    → Ends Top R r
unfolding Ends
weaken-Ends P R (w, ok a) f h = f w.vmdb w.done h
weaken-Ends P R (w, err e) f h = tt
weaken-Ends P R (w, panic) f h = tt

-- From the end of one step to that of the next
after_step-Ends :
    {A B : Type 0} (Q P R : State) (f : A → Act B) (r : World × Outcome MachineError A)
    → Ends Q P r
    → ((a : A) → Reaches P R (f a))
    → Ends Top R (after f r)
unfolding after Ends
after_step-Ends Q P R f (w, ok a) h k = k a w h
after_step-Ends Q P R f (w, err e) h k = tt
after_step-Ends Q P R f (w, panic) h k = tt

new_then :
    (env : Env) (name : VmName) (e : VmEntry) (with_data lock : Bool) (author : Str)
    (config : VmConfig) (w : World)
    → Ends Top
        (IsReplaced name w.vmdb)
        ((new_vm env config false false author >>= with_new env name e with_data lock author) w)
unfolding ◌>>=◌
new_then env name e with_data lock author config w =
    let new_name : VmName = record {
      name = config.name;
      revision = get_next_revision config.name w.vmdb;
    } in
    let later = with_name new_name w.vmdb in
    after_step-Ends (NamesAre (names_before w.vmdb)) (NamesAre later) (IsReplaced name w.vmdb)
      (with_new env name e with_data lock author) (new_vm env config false false author w)
      (new_vm-transaction env config false false author w)
      (λ new w' q.
        weaken-Ends (NamesAre (without name later)) (IsReplaced name w.vmdb)
          (with_new env name e with_data lock author new w') (λ d l h. (config.name, h))
          (with_new-Reaches later env name e with_data lock author new w' q))

-- If `VMRebuild` reports no error, then the names of the database are those before, without the original's, and with the next revision of one name, whatever libvirt, the scripts and the disks answer.
pub vm_rebuild-replaces :
    (env : Env) (name : VmName) (lock : Bool) (author : Str) (w : World)
    → Ends Top (IsReplaced name w.vmdb) (vm_rebuild env name lock author w)
unfolding vm_rebuild
vm_rebuild-replaces env name lock author w =
    let same : State = λ d l. d ≡ w.vmdb in
    let R = IsReplaced name w.vmdb in
    keep_then same R (get_entry name) _ (get_entry-Keeps same name)
      (λ e.
        keep_then same R (check_rebuild env name e) _
          (check_rebuild-Keeps same (λ d l c h. h) env name e)
          (λ checked w' h.
            subst
              (λ d. Ends Top (IsReplaced name d) (
                (new_vm env checked.1 false false author
                    >>= with_new env name e checked.0 lock author)
                  w'))
              h (new_then env name e checked.0 lock author checked.1 w')))
      w refl
