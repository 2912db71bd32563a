-- ===== src/Lifecycle/Reached.antt =====
-- Steps that reach a state when they report no error, for cmd/mulchd/server/vm.go.
use mulch.Prelude.{Outcome, ok, err, panic}
use mulch.Text.{str_eq}
use mulch.Lifecycle.{World, Act, MachineError, after, ◌>>=◌, deferring, finally_with, on_failure}
use mulch.Lifecycle.Steps.{State, Holds, Keeps, Ends}
use mulch.Lifecycle.Deleted.{Top, keeps-Ends}

-- From `P`, a step without an error reaches `R`.
abbrev pub Reaches : {A : Type 0} → State → State → Act A → Type 0
Reaches P R m = (w : World) → Holds P w → Ends Top R (m w)

module _ (P R : State) where
  after_kept :
      {A B : Type 0} (f : A → Act B) (r : World × Outcome MachineError A)
      → Holds P r.0
      → ((a : A) → Reaches P R (f a))
      → Ends Top R (after f r)
  unfolding after Ends
  after_kept f (w, ok a) h k = k a w h
  after_kept f (w, err e) h k = tt
  after_kept f (w, panic) h k = tt

  pub keep_then :
      {A B : Type 0} (m : Act A) (f : A → Act B)
      → Keeps P m
      → ((a : A) → Reaches P R (f a))
      → Reaches P R (m >>= f)
  unfolding ◌>>=◌
  keep_then m f h k w q = after_kept f (m w) (h w q) k

  after_reached :
      {A B : Type 0} (f : A → Act B) (r : World × Outcome MachineError A)
      → Ends Top P r
      → ((a : A) → Reaches P R (f a))
      → Ends Top R (after f r)
  unfolding after Ends
  after_reached f (w, ok a) h k = k a w h
  after_reached f (w, err e) h k = tt
  after_reached f (w, panic) h k = tt

  finally_reached :
      {A : Type 0} (f : Outcome MachineError A → Act Unit) (r : World × Outcome MachineError A)
      → ((o : Outcome MachineError A) → Keeps R (f o))
      → Ends Top R r
      → Ends Top R (finally_with f r)
  unfolding finally_with Ends
  finally_reached f (w, ok a) k h = k (ok a) w h
  finally_reached f (w, err e) k h = tt
  finally_reached f (w, panic) k h = tt

  pub deferring-Reaches :
      {A : Type 0} (f : Outcome MachineError A → Act Unit) (m : Act A)
      → ((o : Outcome MachineError A) → Keeps R (f o))
      → Reaches P R m
      → Reaches P R (deferring f m)
  unfolding deferring
  deferring-Reaches f m k h w q = finally_reached f (m w) k (h w q)

-- A step that reaches `R`, and steps that keep it.
pub reach_then :
    {A B : Type 0} (P R : State) (m : Act A) (f : A → Act B)
    → Reaches P R m
    → ((a : A) → Keeps R (f a))
    → Reaches P R (m >>= f)
unfolding ◌>>=◌
reach_then P R m f h k w q =
    after_reached R R f (m w) (h w q) (λ a w' r. keeps-Ends R (f a w') (k a w' r))

-- What is deferred for a failure does nothing after a success.
pub success_Ends :
    {A : Type 0} (R : State) (m : Act Unit) (r : World × Outcome MachineError A)
    → Ends Top R r
    → Ends Top R (finally_with (on_failure m) r)
unfolding finally_with Ends
success_Ends R m (w, ok a) h = h
success_Ends R m (w, err e) h = tt
success_Ends R m (w, panic) h = tt
