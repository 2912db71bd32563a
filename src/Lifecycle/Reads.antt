-- ===== src/Lifecycle/Reads.antt =====
-- The parts of cmd/mulchd/server/vm.go that only look: they keep any property of the database.
use mulch.Prelude.{Bool, Outcome, ok, err, panic}
use mulch.Text.{str_eq}
use mulch.VmName.{VmName}
use mulch.Vm.{VmEntry}
use mulch.Lifecycle.{World, Env, Act, MachineError, Call, pure, ◌>>=◌, require, at_clock, call}
use mulch.Lifecycle.Delete.{get_state, vm_is_running, no_is_false, is_up}
use mulch.Lifecycle.Steps.{State, Holds, Keeps, bind-Keeps, require-Keeps, Grows, call-Keeps}
use mulch.Lifecycle.Rebuild.{lift, backup_and_restore, check_rebuild}

module _ (Q : State) (g : Grows Q) (env : Env) where
  pub step : (c : Call) → Keeps Q (call env c)
  step c = call-Keeps Q g env c

  -- A call, and what follows it
  pub call_then : {B : Type 0} (c : Call) (m : Act B) → Keeps Q m → Keeps Q (call env c >>= λ _. m)
  call_then c m h = bind-Keeps Q (call env c) (λ _. m) (step c) (λ _. h)

  pub require_then :
      {B : Type 0} (b : Bool) (e : MachineError) (m : Act B)
      → Keeps Q m
      → Keeps Q (require b e >>= λ _. m)
  require_then b e m h = bind-Keeps Q (require b e) (λ _. m) (require-Keeps Q b e) (λ _. h)

  pub get_state-Keeps : (name : VmName) → Keeps Q (get_state env name)
  unfolding get_state
  get_state-Keeps name =
      bind-Keeps Q (at_clock env.state) _ (λ w q. q)
        (λ s. call_then (Call.state_of name) (pure s) (λ w q. q))

  vm_is_running-Keeps : (name : VmName) → Keeps Q (vm_is_running env name)
  unfolding vm_is_running
  vm_is_running-Keeps name =
      call_then (Call.find_domain name) _
        (bind-Keeps Q (get_state env name) _ (get_state-Keeps name) (λ s w q. q))

  no_is_false-Keeps :
      (r : World × Outcome MachineError Bool) → Holds Q r.0 → Holds Q (no_is_false r).0
  unfolding no_is_false
  no_is_false-Keeps (w, ok b) h = h
  no_is_false-Keeps (w, err e) h = h
  no_is_false-Keeps (w, panic) h = h

  pub is_up-Keeps : (name : VmName) → Keeps Q (is_up env name)
  unfolding is_up
  is_up-Keeps name w q = no_is_false-Keeps (vm_is_running env name w) (vm_is_running-Keeps name w q)

  pub check_rebuild-Keeps : (name : VmName) (e : VmEntry) → Keeps Q (check_rebuild env name e)
  unfolding check_rebuild
  check_rebuild-Keeps name e = require_then _ MachineError.in_progress _ (
      bind-Keeps Q (lift (backup_and_restore e.vm.config)) _ (λ w q. q)
        (λ with_data. bind-Keeps Q _ _ (is_up-Keeps name) (λ up.
          require_then up MachineError.not_running _
            (bind-Keeps Q (λ w. (w, _)) _ (λ w q. q) (λ config w q. q)))))
