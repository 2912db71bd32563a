-- ===== src/Lifecycle/Whole.antt =====
-- `NewVM` and `VMRebuild` of cmd/mulchd/server/vm.go keep the database of machines consistent.
use mulch.Prelude.{
  ◌≤◌, ◌≡◌, refl, sym, ap, subst, Bool, true, false, some, [], arith, Outcome, ok, err, panic,
  if◌then◌else◌,
}
use mulch.Text.{Str, lit}
use mulch.Text.Words.{is_nil, is_valid_name}
use mulch.Text.Decimal.{max_int}
use mulch.VmName.{VmName}
use mulch.Vm.{VmEntry, VmConfig}
use mulch.VmDatabase.Lookups.{get_next_revision}
use mulch.VmDatabase.Invariant.{IsConsistent}
use mulch.VmPort.Bounds.{ok-injective}
use mulch.Config.{ConfigError, Outside}
use mulch.Config.Reader.{new_vm_config}
use mulch.Config.Accepts.{new_vm_config-IsVmConfig}
use mulch.Lifecycle.{World, Env, Act, MachineError, after, ◌>>=◌, require, get_entry}
use mulch.Lifecycle.Delete.{is_up}
use mulch.Lifecycle.Create.{new_vm}
use mulch.Lifecycle.Rebuild.{backup_and_restore, config_result, lift, check_rebuild, vm_rebuild}
use mulch.Lifecycle.Steps.{State, Holds, Ends, get_entry-Keeps}
use mulch.Lifecycle.Built.{new_vm-Triple}
use mulch.Lifecycle.Reads.{check_rebuild-Keeps}
use mulch.Lifecycle.Rebuilt.{with_new-Keeps}
use mulch.Lifecycle.Consistent.{
  Consistent, Consistent-Allows, Consistent-AllowsHouse, Consistent-Deletes, Consistent-AddsTo,
}

after-result :
    {A B : Type 0} (f : A → Act B) (r : World × Outcome MachineError A) (b : B)
    → (after f r).1 ≡ ok b
    → (a : A) × (r.1 ≡ ok a) × ((f a r.0).1 ≡ ok b)
unfolding after
after-result f (w, ok a) b h = (a, refl, h)
after-result f (w, err e) b h = absurd (cc)
after-result f (w, panic) b h = absurd (cc)

-- A chain that ends well has a first step that does, and a rest that does.
bind-result :
    {A B : Type 0} (m : Act A) (f : A → Act B) (w : World) (b : B)
    → ((m >>= f) w).1 ≡ ok b
    → (a : A) × ((m w).1 ≡ ok a) × ((f a (m w).0).1 ≡ ok b)
unfolding ◌>>=◌
bind-result m f w b h = after-result f (m w) b h

after-Holds :
    {A B : Type 0} (Q : State) (f : A → Act B) (r : World × Outcome MachineError A)
    → Holds Q r.0
    → ((a : A) → r.1 ≡ ok a → Holds Q (f a r.0).0)
    → Holds Q (after f r).0
unfolding after
after-Holds Q f (w, ok a) h k = k a refl
after-Holds Q f (w, err e) h k = h
after-Holds Q f (w, panic) h k = h

-- What a chain keeps, if the rest keeps it from the result of the first step.
bind-Holds :
    {A B : Type 0} (Q : State) (m : Act A) (f : A → Act B) (w : World)
    → Holds Q (m w).0
    → ((a : A) → (m w).1 ≡ ok a → Holds Q (f a (m w).0).0)
    → Holds Q ((m >>= f) w).0
unfolding ◌>>=◌
bind-Holds Q m f w h k = after-Holds Q f (m w) h k

-- A name from a configuration: valid, and not empty.
abbrev IsNamed : VmConfig → Type 0
IsNamed c = (is_nil c.name ≡ false) × (is_valid_name c.name ≡ true)

config_result-IsNamed :
    (out : Outside) (with_data : Bool) (content : Str) (r : Outcome ConfigError VmConfig)
    (c : VmConfig)
    → new_vm_config out (some content) ≡ r
    → config_result with_data r ≡ ok c
    → IsNamed c
unfolding config_result
config_result-IsNamed out with_data content (ok c') c e h =
    subst IsNamed
      (ok-injective {E = MachineError}
        (record c' { restore_backup = if with_data then lit "-" else [] }) c h)
      (new_vm_config-IsVmConfig out (some content) c' e).name
config_result-IsNamed out with_data content (err x) c e h = absurd (ground (arith, h))
config_result-IsNamed out with_data content panic c e h = absurd (ground (arith, h))

check_rebuild-IsNamed :
    (env : Env) (name : VmName) (e : VmEntry) (w : World) (checked : Bool × VmConfig)
    → (check_rebuild env name e w).1 ≡ ok checked
    → IsNamed checked.1
unfolding check_rebuild
check_rebuild-IsNamed env name e w checked h =
    let a = bind-result (require (is_nil e.vm.wip) MachineError.in_progress) _ w checked h in
    let w1 = (require (is_nil e.vm.wip) MachineError.in_progress w).0 in
    let b = bind-result (lift (backup_and_restore e.vm.config)) _ w1 checked a.2 in
    let c = bind-result (is_up env name) _ w1 checked b.2 in
    let w2 = (is_up env name w1).0 in
    let d = bind-result (require c.0 MachineError.not_running) _ w2 checked c.2 in
    let w3 = (require c.0 MachineError.not_running w2).0 in
    let content = e.vm.config.file_content in
    let read = config_result b.0 (new_vm_config env.outside (some content)) in
    let f = bind-result (lift read) _ w3 checked d.2 in
    subst IsNamed (ap (λ p. p.1) (ok-injective {E = MachineError} (b.0, f.0) checked f.2)) (
      config_result-IsNamed env.outside b.0 content (new_vm_config env.outside (some content)) f.0
        refl f.1)

Ends-Consistent :
    {A : Type 0} (r : World × Outcome MachineError A)
    → Ends Consistent Consistent r
    → IsConsistent r.0.vmdb.db
unfolding Ends
Ends-Consistent (w, ok a) h = h
Ends-Consistent (w, err e) h = h
Ends-Consistent (w, panic) h = h

-- If the database is consistent, and the next revision of the configuration's name, which is valid and not empty, fits an `int`, then `NewVM` leaves the database consistent, whatever it reports.
new_vm-IsConsistent :
    (env : Env) (config : VmConfig) (active allow : Bool) (author : Str) (w : World)
    → (is_nil config.name ≡ false) × (is_valid_name config.name ≡ true)
    → get_next_revision config.name w.vmdb ≤ max_int
    → IsConsistent w.vmdb.db
    → IsConsistent (new_vm env config active allow author w).0.vmdb.db
new_vm-IsConsistent env config active allow author w named small c =
    Ends-Consistent (new_vm env config active allow author w) (
      new_vm-Triple Consistent Consistent Consistent-Allows Consistent-AllowsHouse Consistent-Allows
        Consistent-AllowsHouse env config active allow author w
        (Consistent-AddsTo _ (record { valid = named.1; some_char = named.0; small = small })) c)

-- If the database is consistent, and the next revision of every name fits an `int`, then `VMRebuild`, with its new machine, its backup, its changes of the active revision, its deletions and its rollbacks, leaves the database consistent, whatever libvirt, the scripts and the disks answer, and whatever it reports.
pub vm_rebuild-IsConsistent :
    (env : Env) (name : VmName) (lock : Bool) (author : Str) (w : World)
    → ((n : Str) → get_next_revision n w.vmdb ≤ max_int)
    → IsConsistent w.vmdb.db
    → IsConsistent (vm_rebuild env name lock author w).0.vmdb.db
unfolding vm_rebuild
vm_rebuild-IsConsistent env name lock author w small c =
    let w1 = (get_entry name w).0 in
    let P : State = λ d l. IsConsistent d.db × (d ≡ w.vmdb) in
    let k1 = get_entry-Keeps P name w (c, refl) in
    bind-Holds Consistent (get_entry name) _ w k1.0 (λ e q1.
      let k2 = check_rebuild-Keeps P (λ d l c h. h) env name e w1 k1 in
      bind-Holds Consistent (check_rebuild env name e) _ w1 k2.0 (λ checked q2.
        let w2 = (check_rebuild env name e w1).0 in
        let bound =
          subst (λ d. get_next_revision checked.1.name d ≤ max_int) (sym k2.1)
            (small checked.1.name) in
        let built =
          new_vm-IsConsistent env checked.1 false false author w2
            (check_rebuild-IsNamed env name e w1 checked q2) bound k2.0 in
        bind-Holds Consistent (new_vm env checked.1 false false author) _ w2 built (λ new q3.
          with_new-Keeps Consistent Consistent-Allows Consistent-AllowsHouse Consistent-Deletes env
            name e checked.0 lock author new (new_vm env checked.1 false false author w2).0 built)))
