-- ===== src/Lifecycle/Steps.antt =====
-- What the steps of cmd/mulchd/server/vm.go keep: a property of the database of machines and of the
-- calls done, through chains, deferred functions and ignored errors.
use mulch.Prelude.{
  suc, inl, inr, Bool, true, false, Option, none, some, List, ◌∷◌, Bool-cases, Outcome, ok, err,
  panic, if◌then◌else◌,
}
use mulch.Text.{str_eq}
use mulch.Disk.{Io}
use mulch.VmName.{VmName}
use mulch.Vm.{VmEntry}
use mulch.VmDatabase.{VmDatabase, VmdbError, Host, Update}
use mulch.VmDatabase.Lookups.{get_entry_by_name}
use mulch.Backups.{BackupDatabase, BackupError}
use mulch.Dhcp.{DhcpHost, DhcpError, rebuild_dhcp_static_leases}
use mulch.Lifecycle.{
  World, Env, Act, MachineError, Call, pure, after, ◌>>=◌, deferring, finally_with, ignoring,
  ignore_with, require, when, on_failure, call, on_vmdb, on_backups, rebuild_leases, found_entry,
  get_entry, reread, vmdb_result, backups_result, leases_result,
}

abbrev pub State : Type 1
State = VmDatabase → List Call → Type 0

abbrev pub Holds : State → World → Type 0
Holds Q w = Q w.vmdb w.done

-- A step keeps the property, whatever its result.
abbrev pub Keeps : {A : Type 0} → State → Act A → Type 0
Keeps Q m = (w : World) → Holds Q w → Holds Q (m w).0

module _ (Q : State) where
  after-Keeps :
      {A B : Type 0} (f : A → Act B) (r : World × Outcome MachineError A)
      → ((a : A) → Keeps Q (f a))
      → Holds Q r.0
      → Holds Q (after f r).0
  unfolding after
  after-Keeps f (w, ok a) k h = k a w h
  after-Keeps f (w, err e) k h = h
  after-Keeps f (w, panic) k h = h

  pub bind-Keeps :
      {A B : Type 0} (m : Act A) (f : A → Act B)
      → Keeps Q m
      → ((a : A) → Keeps Q (f a))
      → Keeps Q (m >>= f)
  unfolding ◌>>=◌
  bind-Keeps m f h k w q = after-Keeps f (m w) k (h w q)

  pub deferring-Keeps :
      {A : Type 0} (f : Outcome MachineError A → Act Unit) (m : Act A)
      → ((r : Outcome MachineError A) → Keeps Q (f r))
      → Keeps Q m
      → Keeps Q (deferring f m)
  unfolding deferring finally_with
  deferring-Keeps f m k h w q = k (m w).1 (m w).0 (h w q)

  pub ignoring-Keeps : {A : Type 0} (m : Act A) → Keeps Q m → Keeps Q (ignoring m)
  unfolding ignoring ignore_with
  ignoring-Keeps m h w q = h w q

  pub require-Keeps : (b : Bool) (e : MachineError) → Keeps Q (require b e)
  require-Keeps true e w q = q
  require-Keeps false e w q = q

  pub if-Keeps :
      {A : Type 0} (b : Bool) (m n : Act A) → Keeps Q m → Keeps Q n → Keeps Q (if b then m else n)
  if-Keeps true m n h k w q = h w q
  if-Keeps false m n h k w q = k w q

  pub when-Keeps : (b : Bool) (m : Act Unit) → Keeps Q m → Keeps Q (when b m)
  when-Keeps b m h = if-Keeps b m (pure tt) h (λ w q. q)

  pub on_failure-Keeps :
      {A : Type 0} (m : Act Unit) (r : Outcome MachineError A)
      → Keeps Q m
      → Keeps Q (on_failure m r)
  on_failure-Keeps m (ok a) h w q = q
  on_failure-Keeps m (err e) h w q = h w q
  on_failure-Keeps m panic h w q = h w q

  pub vmdb_result-Keeps : (w : World) (u : Update) → Q u.0 w.done → Holds Q (vmdb_result w u).0
  unfolding vmdb_result
  vmdb_result-Keeps w (d, none) h = h
  vmdb_result-Keeps w (d, some e) h = h

  pub on_vmdb-Keeps :
      (env : Env) (f : Host → VmDatabase → Update)
      → ((h : Host) (d : VmDatabase) (l : List Call) → Q d l → Q (f h d).0 l)
      → Keeps Q (on_vmdb env f)
  unfolding on_vmdb
  on_vmdb-Keeps env f k w q =
      vmdb_result-Keeps (record w { clock = suc w.clock }) (f (env.host w.clock) w.vmdb)
        (k (env.host w.clock) w.vmdb w.done q)

  backups_result-Keeps :
      (w : World) (u : BackupDatabase × Option BackupError)
      → Holds Q w
      → Holds Q (backups_result w u).0
  unfolding backups_result
  backups_result-Keeps w (d, none) h = h
  backups_result-Keeps w (d, some e) h = h

  pub on_backups-Keeps :
      (env : Env) (f : Io → BackupDatabase → BackupDatabase × Option BackupError)
      → Keeps Q (on_backups env f)
  unfolding on_backups
  on_backups-Keeps env f w q =
      backups_result-Keeps (record w { clock = suc w.clock }) (f (env.io w.clock) w.backups) q

  leases_result-Keeps :
      (w : World) (u : List DhcpHost × Option DhcpError) → Holds Q w → Holds Q (leases_result w u).0
  unfolding leases_result
  leases_result-Keeps w (d, none) h = h
  leases_result-Keeps w (d, some e) h = h

  pub rebuild_leases-Keeps : (env : Env) → Keeps Q (rebuild_leases env)
  unfolding rebuild_leases
  rebuild_leases-Keeps env w q =
      leases_result-Keeps (record w { clock = suc w.clock })
        (rebuild_dhcp_static_leases env.prefix w.vmdb (env.network w.clock) (env.answer w.clock)
          w.hosts w.leases)
        q

  found_entry-Keeps : (o : Option VmEntry) → Keeps Q (found_entry o)
  unfolding found_entry
  found_entry-Keeps none w q = q
  found_entry-Keeps (some e) w q = q

  pub get_entry-Keeps : (name : VmName) → Keeps Q (get_entry name)
  unfolding get_entry
  get_entry-Keeps name w q = found_entry-Keeps (get_entry_by_name name w.vmdb) w q

  pub reread-Keeps : (name : VmName) (e : VmEntry) → Keeps Q (reread name e)
  unfolding reread
  reread-Keeps name e w q = q

  -- One more call changes nothing of the property.
  abbrev pub Grows : Type 0
  Grows = (d : VmDatabase) (l : List Call) (c : Call) → Q d l → Q d (c ∷ l)

  pub call-Keeps : Grows → (env : Env) (c : Call) → Keeps Q (call env c)
  unfolding call
  call-Keeps g env c w q = elim (Bool-cases (env.answer w.clock)) [
    | inl e ↦ rw e (g w.vmdb w.done c q)
    | inr e ↦ rw e q
  ]

-- What holds at the end: `R` after a result, `Q` after an error.
unfoldable pub Ends : {A : Type 0} → State → State → World × Outcome MachineError A → Type 0
Ends Q R (w, ok a) = Holds R w
Ends Q R (w, err e) = Holds Q w
Ends Q R (w, panic) = Holds Q w

abbrev pub Triple : {A : Type 0} → State → State → Act A → Type 0
Triple Q R m = (w : World) → Holds Q w → Ends Q R (m w)

module _ (Q R : State) where
  after-Ends :
      {A B : Type 0} (f : A → Act B) (r : World × Outcome MachineError A)
      → ((a : A) → Triple Q R (f a))
      → Holds Q r.0
      → Ends Q R (after f r)
  unfolding after Ends
  after-Ends f (w, ok a) k h = k a w h
  after-Ends f (w, err e) k h = h
  after-Ends f (w, panic) k h = h

  pub bind-Triple :
      {A B : Type 0} (m : Act A) (f : A → Act B)
      → Keeps Q m
      → ((a : A) → Triple Q R (f a))
      → Triple Q R (m >>= f)
  unfolding ◌>>=◌
  bind-Triple m f h k w q = after-Ends f (m w) k (h w q)

  after-pure-Ends :
      {A B : Type 0} (g : A → B) (r : World × Outcome MachineError A)
      → Ends Q R r
      → Ends Q R (after (λ a. pure (g a)) r)
  unfolding after Ends
  after-pure-Ends g (w, ok a) h = h
  after-pure-Ends g (w, err e) h = h
  after-pure-Ends g (w, panic) h = h

  pub pure-Triple :
      {A B : Type 0} (m : Act A) (g : A → B) → Triple Q R m → Triple Q R (m >>= λ a. pure (g a))
  unfolding ◌>>=◌
  pure-Triple m g h w q = after-pure-Ends g (m w) (h w q)

  finally-Ends :
      {A : Type 0} (f : Outcome MachineError A → Act Unit) (r : World × Outcome MachineError A)
      → ((o : Outcome MachineError A) → Keeps Q (f o))
      → ((o : Outcome MachineError A) → Keeps R (f o))
      → Ends Q R r
      → Ends Q R (finally_with f r)
  unfolding finally_with Ends
  finally-Ends f (w, ok a) k l h = l (ok a) w h
  finally-Ends f (w, err e) k l h = k (err e) w h
  finally-Ends f (w, panic) k l h = k panic w h

  pub deferring-Triple :
      {A : Type 0} (f : Outcome MachineError A → Act Unit) (m : Act A)
      → ((o : Outcome MachineError A) → Keeps Q (f o))
      → ((o : Outcome MachineError A) → Keeps R (f o))
      → Triple Q R m
      → Triple Q R (deferring f m)
  unfolding deferring
  deferring-Triple f m k l h w q = finally-Ends f (m w) k l (h w q)

Ends-same : {A : Type 0} (Q : State) (r : World × Outcome MachineError A) → Ends Q Q r → Holds Q r.0
unfolding Ends
Ends-same Q (w, ok a) h = h
Ends-same Q (w, err e) h = h
Ends-same Q (w, panic) h = h

pub Triple-Keeps : {A : Type 0} (Q : State) (m : Act A) → Triple Q Q m → Keeps Q m
Triple-Keeps Q m h w q = Ends-same Q (m w) (h w q)

-- `R` after a success, `Q` after an error
abbrev pub Ending : State → State → Option VmdbError → State
Ending Q R none = R
Ending Q R (some e) = Q

pub vmdb_result-Ends :
    (Q R : State) (w : World) (u : Update) → Ending Q R u.1 u.0 w.done → Ends Q R (vmdb_result w u)
unfolding vmdb_result Ends
vmdb_result-Ends Q R w (d, none) h = h
vmdb_result-Ends Q R w (d, some e) h = h

pub on_vmdb-Triple :
    (Q R : State) (env : Env) (f : Host → VmDatabase → Update)
    → ((h : Host) (d : VmDatabase) (l : List Call) → Q d l → Ending Q R (f h d).1 (f h d).0 l)
    → Triple Q R (on_vmdb env f)
unfolding on_vmdb
on_vmdb-Triple Q R env f k w q =
    vmdb_result-Ends Q R (record w { clock = suc w.clock }) (f (env.host w.clock) w.vmdb)
      (k (env.host w.clock) w.vmdb w.done q)

-- A first step that keeps more than `Q`.
module _ (P Q R : State) (weaken : (d : VmDatabase) (l : List Call) → P d l → Q d l) where
  after_more-Ends :
      {A B : Type 0} (f : A → Act B) (r : World × Outcome MachineError A)
      → ((a : A) (w : World) → Holds P w → Ends Q R (f a w))
      → Holds P r.0
      → Ends Q R (after f r)
  unfolding after Ends
  after_more-Ends f (w, ok a) k h = k a w h
  after_more-Ends f (w, err e) k h = weaken w.vmdb w.done h
  after_more-Ends f (w, panic) k h = weaken w.vmdb w.done h

  pub bind-Ends :
      {A B : Type 0} (m : Act A) (f : A → Act B)
      → Keeps P m
      → ((a : A) (w : World) → Holds P w → Ends Q R (f a w))
      → (w : World) → Holds P w
      → Ends Q R ((m >>= f) w)
  unfolding ◌>>=◌
  bind-Ends m f h k w q = after_more-Ends f (m w) k (h w q)
