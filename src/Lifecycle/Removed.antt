-- ===== src/Lifecycle/Removed.antt =====
-- The steps of `VMRebuild` of cmd/mulchd/server/vm.go once the new machine is there, when they report no
-- error: the original is removed.
use mulch.Prelude.{
  suc, ◌≡◌, refl, sym, ◌∙◌, ap, Bool, true, false, not, ◌||◌, Option, none, some, List, Bool-cases,
  inl, inr, ◌==◌, if◌then◌else◌,
}
use mulch.GoMap.{has}
use mulch.Text.{Str, str_eq, str_beq_iff}
use mulch.VmName.{VmName, id}
use mulch.Vm.{Vm, VmEntry}
use mulch.VmDatabase.{VmDatabase, VmdbError, Host, Update}
use mulch.VmDatabase.Update.{delete}
use mulch.Lifecycle.{
  Env, Act, Call, MachineError, deferring, ignoring, require, when, on_failure, call, on_vmdb,
  get_entry, reread, rebuild_leases,
}
use mulch.Lifecycle.Delete.{
  get_state, force_stop, delete_disk, delete_entry, remove_machine, delete_machine, delete_unlocked,
  vm_delete, vm_lock_unlock,
}
use mulch.Lifecycle.Backup.{vm_backup}
use mulch.Lifecycle.Rebuild.{
  finish_rebuild, set_revision, drop_backup, restore_from, replace, move_data, move, switched,
  take_over, with_new,
}
use mulch.Lifecycle.Steps.{
  State, Keeps, Ending, ignoring-Keeps, require-Keeps, when-Keeps, on_failure-Keeps,
  get_entry-Keeps, reread-Keeps, vmdb_result-Ends, rebuild_leases-Keeps,
}
use mulch.Lifecycle.Reads.{step, get_state-Keeps}
use mulch.Lifecycle.Kept.{
  force_stop-Keeps, delete_disk-Keeps, vm_lock_unlock-Keeps, vm_backup-Keeps,
}
use mulch.Lifecycle.Rebuilt.{
  finish_rebuild-Keeps, set_revision-Keeps, drop_backup-Keeps, restore_from-Keeps,
}
use mulch.Lifecycle.Names.{has-delete}
use mulch.Lifecycle.Rollback.{NamesAre, NamesAre-Allows}
use mulch.Lifecycle.Deleted.{Top, delete-gone}
use mulch.Lifecycle.Reached.{Reaches, keep_then, deferring-Reaches, reach_then, success_Ends}

-- All names but one
abbrev pub without : VmName → (Str → Bool) → Str → Bool
without name p k = if id name == k then false else p k

delete-Ending :
    (name : VmName) (p : Str → Bool) (e : Option VmdbError) (d : VmDatabase) (l : List Call)
    → (e ≡ none → has (id name) d.db ≡ false)
    → ((k : Str) → (id name == k) ≡ false → has k d.db ≡ p k)
    → Ending Top (NamesAre (without name p)) e d l
delete-Ending name p none d l g o = λ k. elim (Bool-cases (id name == k)) [
  | inl e ↦ rw e (ap (λ j. has j d.db) (sym ((str_beq_iff (id name) k).0 e)) ∙ g refl)
  | inr e ↦ rw e (o k e)
]
delete-Ending name p (some e) d l g o = tt

module _ (p : Str → Bool) (env : Env) (name : VmName) where
  abbrev pub Before : State
  Before = NamesAre p

  abbrev pub After : State
  After = NamesAre (without name p)

  delete_entry-Reaches : Reaches Before After (delete_entry env name)
  unfolding delete_entry on_vmdb
  delete_entry-Reaches w q =
      let h₁ : Host = env.host w.clock in
      let h₂ : Host = env.host (suc w.clock) in
      let r : Update = delete h₁ h₂ name w.vmdb in
      vmdb_result-Ends Top After (record w { clock = suc (suc w.clock) }) r
        (delete-Ending name p r.1 r.0 w.done (delete-gone h₁ h₂ name w.vmdb)
          (λ k e. has-delete k h₁ h₂ name w.vmdb e ∙ q k))

  vm_delete-Reaches : Reaches Before After (vm_delete env name)
  unfolding vm_delete delete_unlocked delete_machine remove_machine
  vm_delete-Reaches =
      let a = NamesAre-Allows p in
      let called : (c : Call) → Keeps Before (call env c) = step Before a.grows env in
      keep_then Before After (get_entry name) _ (get_entry-Keeps Before name) (λ e.
        keep_then Before After (require (not e.vm.locked) MachineError.is_locked) _
          (require-Keeps Before (not e.vm.locked) MachineError.is_locked)
          (λ _.
            keep_then Before After (call env (Call.find_domain name)) _
              (called (Call.find_domain name))
              (λ _.
                keep_then Before After (get_state env name) _
                  (get_state-Keeps Before a.grows env name)
                  (λ s.
                    keep_then Before After (force_stop env name s) _
                      (force_stop-Keeps Before a env name s)
                      (λ _.
                        keep_then Before After (delete_disk env name) _
                          (delete_disk-Keeps Before a env name)
                          (λ _.
                            reach_then Before After (remove_machine env name)
                              (λ _. rebuild_leases env)
                              (keep_then Before After (call env (Call.undefine name)) _
                                (called (Call.undefine name)) (λ _. delete_entry-Reaches))
                              (λ _. rebuild_leases-Keeps After env)))))))

  replace-Reaches :
      (e : VmEntry) (active : Bool) (new_name : VmName) (lock : Bool)
      → Reaches Before After (replace env name e active new_name lock)
  unfolding replace
  replace-Reaches e active new_name lock =
      let a = NamesAre-Allows p in
      let b = NamesAre-Allows (without name p) in
      let activate : Act Unit = set_revision env new_name.name (some new_name.revision) in
      keep_then Before After (when active activate) _
        (when-Keeps Before active activate
          (set_revision-Keeps Before a env new_name.name (some new_name.revision)))
        (λ _. keep_then Before After (reread name e) _ (reread-Keeps Before name e) (λ now.
          keep_then Before After (vm_lock_unlock env name false) _
            (vm_lock_unlock-Keeps Before a env name false)
            (λ _. reach_then Before After (vm_delete env name) _ vm_delete-Reaches (λ _.
              ignoring-Keeps After (finish_rebuild env new_name (lock || now.vm.locked))
                (finish_rebuild-Keeps After b env new_name (lock || now.vm.locked))))))

  move_data-Reaches :
      (e : VmEntry) (active : Bool) (vm : Vm) (new_name : VmName) (lock : Bool) (author : Str)
      → Reaches Before After (move_data env name e active vm new_name lock author)
  unfolding move_data
  move_data-Reaches e active vm new_name lock author =
      let a = NamesAre-Allows p in
      keep_then Before After (vm_backup env name author false 0) _
        (vm_backup-Keeps Before a env name author false 0)
        (λ volume.
          deferring-Reaches Before After (λ _. drop_backup env volume) _
            (λ o. drop_backup-Keeps After (NamesAre-Allows (without name p)) env volume)
            (keep_then Before After (restore_from env volume vm new_name) _
              (restore_from-Keeps Before a env volume vm new_name)
              (λ _. replace-Reaches e active new_name lock)))

  if-Reaches :
      {A : Type 0} (t : Bool) (m n : Act A)
      → Reaches Before After m
      → Reaches Before After n
      → Reaches Before After (if t then m else n)
  if-Reaches true m n h k = h
  if-Reaches false m n h k = k

  move-Reaches :
      (e : VmEntry) (active with_data : Bool) (vm : Vm) (new_name : VmName) (lock : Bool)
      (author : Str)
      → Reaches Before After (move env name e active with_data vm new_name lock author)
  unfolding move
  move-Reaches e active with_data vm new_name lock author =
      if-Reaches with_data (move_data env name e active vm new_name lock author)
        (replace env name e active new_name lock)
        (move_data-Reaches e active vm new_name lock author)
        (replace-Reaches e active new_name lock)

  switched-Reaches :
      (e : VmEntry) (with_data : Bool) (vm : Vm) (new_name : VmName) (lock : Bool) (author : Str)
      → Reaches Before After (switched env name e with_data vm new_name lock author)
  unfolding switched
  switched-Reaches e with_data vm new_name lock author =
      let back : Act Unit = ignoring (set_revision env name.name (some name.revision)) in
      keep_then Before After (set_revision env name.name none) _
        (set_revision-Keeps Before (NamesAre-Allows p) env name.name none)
        (λ _.
          deferring-Reaches Before After (on_failure back) _
            (λ o. on_failure-Keeps After back o (
              ignoring-Keeps After _ (
                set_revision-Keeps After (NamesAre-Allows (without name p)) env name.name
                  (some name.revision))))
            (move-Reaches e true with_data vm new_name lock author))

  -- The names but the original's, once the new machine is there. The deferred deletion of the new
  -- machine does nothing after a success.
  pub with_new-Reaches :
      (e : VmEntry) (with_data lock : Bool) (author : Str) (new : Vm × VmName)
      → Reaches Before After (with_new env name e with_data lock author new)
  unfolding with_new take_over deferring
  with_new-Reaches e with_data lock author (vm, new_name) w q =
      success_Ends After (ignoring (vm_delete env new_name)) _ (
        keep_then Before After (reread name e) _ (reread-Keeps Before name e)
          (λ now.
            if-Reaches now.active (switched env name now with_data vm new_name lock author)
              (move env name now false with_data vm new_name lock author)
              (switched-Reaches now with_data vm new_name lock author)
              (move-Reaches now false with_data vm new_name lock author))
          w q)
