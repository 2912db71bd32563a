-- ===== src/Lifecycle/Built.antt =====
-- A property that the methods of the database keep is kept by `NewVM` of
-- cmd/mulchd/server/vm.go.
use mulch.Prelude.{◌≡◌, refl, sym, subst, Bool, Option, List}
use mulch.Text.{Str, str_eq}
use mulch.Text.Words.{is_valid_name}
use mulch.VmName.{VmName}
use mulch.Vm.{Vm, VmConfig}
use mulch.VmDatabase.{VmDatabase, Host}
use mulch.VmDatabase.Lookups.{get_next_revision}
use mulch.VmDatabase.Update
use mulch.Backups.{Backup}
use mulch.Lifecycle.{World, Env, Act, MachineError, Call, ◌>>=◌, require, after, call}
use mulch.Lifecycle.Create.{
  secrets_known, on_domain, on_disk, with_lease, find_backup, in_greenhouse, grow, next_name,
  new_named, new_vm,
}
use mulch.Lifecycle.Steps.{
  State, Holds, Keeps, ignoring-Keeps, require-Keeps, on_failure-Keeps, on_vmdb-Keeps, call-Keeps,
  Ends, Triple, bind-Ends, bind-Triple, pure-Triple, deferring-Triple, Triple-Keeps, Ending,
  on_vmdb-Triple,
}
use mulch.Lifecycle.Reads.{step}
use mulch.Lifecycle.Kept.{Allows}
use mulch.Lifecycle.Parts.{
  AllowsHouse, seed_ready-Keeps, check_active-Keeps, check_restore-Keeps, add_lease-Keeps,
  remove_lease-Keeps, boot-Keeps, prepare-Keeps, install_or_restore-Keeps, remove_domain-Keeps,
  remove_disk-Keeps, leave-Keeps, not_in_libvirt-Keeps, new_machine-Keeps,
}

-- `Add` leads from `Q` to `R`, and an error of it back to `Q`.
abbrev pub AddsTo : State → State → VmName → Type 0
AddsTo Q R name =
    (h : Host) (vm : Vm) (active : Bool) (d : VmDatabase) (l : List Call)
    → Q d l
    → let (d', e) = Update.add h vm name active d in Ending Q R e d' l

-- `NewVM` leads from `Q` to `R`, and back to `Q` if it fails.
module _ (Q R : State) (a : Allows Q) (b : AllowsHouse Q) (r : Allows R) (s : AllowsHouse R)
    (env : Env) where
  call-Triple :
      {B : Type 0} (c : Call) (m : Act B) → Triple Q R m → Triple Q R (call env c >>= λ _. m)
  call-Triple c m h = bind-Triple Q R (call env c) (λ _. m) (step Q a.grows env c) (λ _. h)

  require-Triple :
      {B : Type 0} (t : Bool) (e : MachineError) (m : Act B)
      → Triple Q R m
      → Triple Q R (require t e >>= λ _. m)
  require-Triple t e m h = bind-Triple Q R (require t e) (λ _. m) (require-Keeps Q t e) (λ _. h)

  module _ (name : VmName) (adds : AddsTo Q R name) where
    on_domain-Triple :
        (vm : Vm) (active allow : Bool) (o : Option Backup)
        → Triple Q R (on_domain env name vm active allow o)
    unfolding on_domain
    on_domain-Triple vm active allow o = bind-Triple Q R _ _ (boot-Keeps Q a b env name) (λ ip.
        bind-Triple Q R _ _ (prepare-Keeps Q a b env name (record vm { last_ip = ip }) allow)
          (λ vm'. bind-Triple Q R _ _ (install_or_restore-Keeps Q a b env name vm' o allow) (λ _.
            pure-Triple Q R _ (λ _. vm')
              (on_vmdb-Triple Q R env (λ h. Update.add h vm' name active)
                (λ h. adds h vm' active)))))

    on_disk-Triple :
        (vm : Vm) (active allow : Bool) (o : Option Backup)
        → Triple Q R (on_disk env name vm active allow o)
    unfolding on_disk
    on_disk-Triple vm active allow o = call-Triple (Call.resize_disk name) _ (
        call-Triple Call.read_file _ (
          call-Triple (Call.define name) _ (
            deferring-Triple Q R _ _
              (λ p. on_failure-Keeps Q _ p (remove_domain-Keeps Q a b env name))
              (λ p. on_failure-Keeps R _ p (remove_domain-Keeps R r s env name))
              (on_domain-Triple vm active allow o))))

    with_lease-Triple :
        (vm : Vm) (active allow : Bool) (o : Option Backup)
        → Triple Q R (with_lease env name vm active allow o)
    unfolding with_lease
    with_lease-Triple vm active allow o =
        bind-Triple Q R _ _ (add_lease-Keeps Q a b env name vm) (λ _.
          deferring-Triple Q R _ _ (λ p. remove_lease-Keeps Q a b env vm)
            (λ p. remove_lease-Keeps R r s env vm)
            (call-Triple (Call.create_disk name) _ (
              deferring-Triple Q R _ _
                (λ p. on_failure-Keeps Q _ p (remove_disk-Keeps Q a b env name))
                (λ p. on_failure-Keeps R _ p (remove_disk-Keeps R r s env name))
                (on_disk-Triple vm active allow o))))

    in_greenhouse-Triple :
        (vm : Vm) (active allow : Bool) → Triple Q R (in_greenhouse env name vm active allow)
    unfolding in_greenhouse secrets_known find_backup
    in_greenhouse-Triple vm active allow =
        bind-Triple Q R _ _ (seed_ready-Keeps Q a b env (env.seeds vm.config.seed)) (λ _.
          bind-Triple Q R _ _ (check_active-Keeps Q a b env vm name active) (λ _.
            require-Triple _ MachineError.missing_secrets _ (
              bind-Triple Q R (find_backup env vm.config) _ (λ w q. q)
                (λ o.
                  bind-Triple Q R _ _ (check_restore-Keeps Q a b env vm.config)
                    (λ _. call-Triple Call.public_key _ (with_lease-Triple vm active allow o))))))

    grow-Triple : (vm : Vm) (active allow : Bool) → Triple Q R (grow env name vm active allow)
    unfolding grow
    grow-Triple vm active allow =
        bind-Triple Q R _ _ (ignoring-Keeps Q _ (on_vmdb-Keeps Q env _ (λ h. b.enters h vm name)))
          (λ _.
            deferring-Triple Q R _ _ (λ p. leave-Keeps Q a b env name)
              (λ p. leave-Keeps R r s env name) (in_greenhouse-Triple vm active allow))

    -- Once the name is chosen
    pub new_named-Triple :
        (config : VmConfig) (active allow : Bool) (author : Str)
        → Triple Q R (new_named env name config active allow author)
    unfolding new_named
    new_named-Triple config active allow author =
        bind-Triple Q R _ _ (not_in_libvirt-Keeps Q a b env name) (λ _.
          bind-Triple Q R _ _ (new_machine-Keeps Q a b env config author)
            (λ vm. pure-Triple Q R _ (λ vm'. (vm', name)) (grow-Triple vm active allow)))

  next_after :
      (config : VmConfig) (active allow : Bool) (author : Str) (w : World)
      → AddsTo Q R (record { name = config.name; revision = get_next_revision config.name w.vmdb })
      → Holds Q w
      → Ends Q R
          ((next_name env config.name >>= λ name. new_named env name config active allow author) w)
  unfolding next_name ◌>>=◌ after
  next_after config active allow author w adds q =
      new_named-Triple
        (record { name = config.name; revision = get_next_revision config.name w.vmdb }) adds config
        active allow author w q

  -- The name is the next one of the database as it is when `NewVM` starts.
  pub new_vm-Triple :
      (config : VmConfig) (active allow : Bool) (author : Str) (w : World)
      → AddsTo Q R (record { name = config.name; revision = get_next_revision config.name w.vmdb })
      → Holds Q w
      → Ends Q R (new_vm env config active allow author w)
  unfolding new_vm
  new_vm-Triple config active allow author w adds q =
      let P : State = λ d l. Q d l × (d ≡ w.vmdb) in
      let forget : (d : VmDatabase) (l : List Call) → P d l → Q d l = λ d l h. h.0 in
      let known : (c : Call) → Keeps P (call env c) =
        call-Keeps P (λ d l c h. (a.grows d l c h.0, h.1)) env in
      bind-Ends P Q R forget (call env Call.random) _ (known Call.random)
        (λ _. bind-Ends P Q R forget (call env Call.connect) _ (known Call.connect) (λ _.
          bind-Ends P Q R forget (require (is_valid_name config.name) MachineError.bad_name) _
            (require-Keeps P (is_valid_name config.name) MachineError.bad_name)
            (λ _ w' h.
              next_after config active allow author w'
                (subst
                  (λ d.
                    AddsTo Q R
                      (record { name = config.name; revision = get_next_revision config.name d }))
                  (sym h.1) adds)
                h.0)))
        w (q, refl)

-- A property that `Add` keeps
pub new_vm-Keeps :
    (Q : State)
    → Allows Q
    → AllowsHouse Q
    → (env : Env) (config : VmConfig) (active allow : Bool) (author : Str)
    → ((name : VmName) → AddsTo Q Q name)
    → Keeps Q (new_vm env config active allow author)
new_vm-Keeps Q a b env config active allow author adds =
    Triple-Keeps Q _ (λ w q. new_vm-Triple Q Q a b a b env config active allow author w (adds _) q)
