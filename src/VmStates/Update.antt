-- ===== src/VmStates/Update.antt =====
-- What `Update` records.
use mulch.Prelude.{
  ◌+◌, ◌%◌, ◌^◌, ◌≡◌, refl, sym, ◌∙◌, ap, subst, Bool, true, false, Option, none, some, List, [],
  ◌∷◌, any, arith, if◌then◌else◌, ◌==◌, Bool-cases, Option-cases, inl, inr,
}
use mulch.GoMap.{get, put}
use mulch.GoMap.Laws.{get-put, IsMap, put-IsMap}
use mulch.Text.{Str, lit, str_eq, str_beq_iff}
use mulch.Disk.{Io, done, open_failed, write_failed, succeeded, write_file}
use mulch.VmName.{VmName, id, libvirt_domain_name}
use mulch.VmStates.{
  States, VmStateDatabase, StateError, state_text, new_states, deep_equal, save, compare_states,
  update,
}
use mulch.VmStates.SameMap.{deep_equal-get}
use mathlib.Core.List.{◌++◌}

get-put_state :
    (k j v : Str) (m : States) → get j (put k v m) ≡ (if k == j then some v else get j m)
get-put_state k j v m = get-put k j v m

abbrev pub has_id : Str → List VmName → Bool
has_id k names = any (λ n. id n == k) names

abbrev pub text_of : Option Bool → Option Str
text_of none = none
text_of (some true) = some (lit "up")
text_of (some false) = some (lit "down")

text_of-some : (state : Bool) → text_of (some state) ≡ some (state_text state)
text_of-some true = refl
text_of-some false = refl

none-some : (m : States) → ◌≡◌ {A = Option States} none (some m) → ⊥
none-some m e = ground (arith, e)

some-injective : (m m' : States) → some m ≡ some m' → m ≡ m'
some-injective m m' e = ground (arith, e)

written :
    (io : Io) (m : States) (f : Option States)
    → (if succeeded io then none else some StateError.save_failed) ≡ none
    → write_file io m f ≡ some m
written done m f e = refl
written open_failed m f e = absurd (ground (arith, e))
written write_failed m f e = absurd (ground (arith, e))

module _ (prefix : Str) (running : Str → Option Bool) where
  new_states-cons :
      (n : VmName) (names : List VmName) (m m' : States)
      → new_states prefix running (n ∷ names) m ≡ some m'
      → (state : Bool) × (running (libvirt_domain_name prefix n) ≡ some state)
        × (new_states prefix running names (put (id n) (state_text state) m) ≡ some m')
  unfolding new_states
  new_states-cons n names m m' e =
      let next : Option Bool → Option States = λ o. elim o [
        | none ↦ none
        | some state ↦ new_states prefix running names (put (id n) (state_text state) m)
      ] in
      elim (Option-cases (running (libvirt_domain_name prefix n))) [
        | inl r ↦ absurd (none-some m' (sym (ap next r) ∙ e))
        | inr (state, r) ↦ (state, r, sym (ap next r) ∙ e)
      ]

  new_states-IsMap :
      (names : List VmName) (m m' : States)
      → IsMap m
      → new_states prefix running names m ≡ some m'
      → IsMap m'
  unfolding new_states
  new_states-IsMap [] m m' i e = subst IsMap (some-injective m m' e) i
  new_states-IsMap (n ∷ names) m m' i e =
      let c = new_states-cons n names m m' e in
      new_states-IsMap names (put (id n) (state_text c.0) m) m'
        (put-IsMap (id n) (state_text c.0) m i) c.2

  -- What the loop of `Update` finds: the state of each machine.
  get-new_states :
      (names : List VmName) (m m' : States) (k : Str)
      → new_states prefix running names m ≡ some m'
      → get k m' ≡ (if has_id k names then text_of (running (prefix ++ k)) else get k m)
  unfolding new_states libvirt_domain_name
  get-new_states [] m m' k e = ap (get k) (sym (some-injective m m' e))
  get-new_states (n ∷ names) m m' k e =
      let c = new_states-cons n names m m' e in
      let rest = get-new_states names (put (id n) (state_text c.0) m) m' k c.2 in
      elim (Bool-cases (id n == k)) [
        | inl s ↦
            let same : text_of (running (prefix ++ k)) ≡ some (state_text c.0) =
              ap (λ r. text_of (running (prefix ++ r))) (sym ((str_beq_iff (id n) k).0 s))
              ∙ ap text_of c.1
              ∙ text_of-some c.0 in
            ground (arith, rest, same, s, get-put_state (id n) k (state_text c.0) m)
        | inr s ↦ ground (arith, rest, s, get-put_state (id n) k (state_text c.0) m)
      ]

  -- A loop that ends has read every state.
  all_read :
      (names : List VmName) (m m' : States) (k : Str)
      → new_states prefix running names m ≡ some m'
      → has_id k names ≡ true
      → running (prefix ++ k) ≡ none
      → ⊥
  unfolding libvirt_domain_name
  all_read [] m m' k e h r = ground (arith, h)
  all_read (n ∷ names) m m' k e h r =
      let c = new_states-cons n names m m' e in
      elim (Bool-cases (id n == k)) [
        | inl s ↦
            let same : running (prefix ++ k) ≡ some c.0 =
              ap (λ j. running (prefix ++ j)) (sym ((str_beq_iff (id n) k).0 s)) ∙ c.1 in
            ground (arith, r, same)
        | inr s ↦ all_read names (put (id n) (state_text c.0) m) m' k c.2 (ground (arith, h, s)) r
      ]

  compare_states-ok :
      (io : Io) (d : VmStateDatabase) (o : Option States)
      → (compare_states prefix running io d o).1 ≡ none
      → IsMap d.db
      → (m : States) × (o ≡ some m)
        × (IsMap m → (k : Str) → get k (compare_states prefix running io d o).0.db ≡ get k m)
  unfolding compare_states save
  compare_states-ok io d none e i = absurd (ground (arith, e))
  compare_states-ok io d (some m) e i = (
    m,
    refl,
    λ h k. elim (Bool-cases (deep_equal d.db m)) [
      | inl s ↦ rw s (deep_equal-get d.db m k i h s)
      | inr s ↦ rw s refl
    ],
  )

  compare_states-file :
      (io : Io) (d : VmStateDatabase) (o : Option States)
      → (compare_states prefix running io d o).1 ≡ none
      → d.file ≡ some d.db
      → (compare_states prefix running io d o).0.file
        ≡ some (compare_states prefix running io d o).0.db
  unfolding compare_states save
  compare_states-file io d none e f = absurd (ground (arith, e))
  compare_states-file io d (some m) e f = elim (Bool-cases (deep_equal d.db m)) [
    | inl s ↦ rw s f
    | inr s ↦ rw s (written io m d.file (ground (arith, e, s)))
  ]

  -- Where `Update` reports no error, the database has a state for each machine in the list and for no other: up if libvirt says that it runs, and down if not; and the file, up to date before, is up to date after.
  pub update-ok :
      (names : List VmName) (io : Io) (d : VmStateDatabase) (k : Str)
      → IsMap d.db
      → d.file ≡ some d.db
      → (update prefix running names io d).1 ≡ none
      → (get k (update prefix running names io d).0.db
          ≡ (if has_id k names then text_of (running (prefix ++ k)) else none))
        × ((update prefix running names io d).0.file ≡ some (update prefix running names io d).0.db)
  unfolding update get
  update-ok names io d k i f e =
      let d' = record d { cycles = (d.cycles + 1) % 2 ^ 64 } in
      let c = compare_states-ok io d' (new_states prefix running names []) e i in
      (
        c.2 (new_states-IsMap names [] c.0 tt c.1) k ∙ get-new_states names [] c.0 k c.1,
        compare_states-file io d' (new_states prefix running names []) e f,
      )

  -- Where the state of a machine in the list cannot be read, `Update` reports it, and keeps the database and the file.
  update-failed :
      (names : List VmName) (io : Io) (d : VmStateDatabase) (n : VmName)
      → has_id (id n) names ≡ true
      → running (libvirt_domain_name prefix n) ≡ none
      → ((update prefix running names io d).1 ≡ some StateError.libvirt_failed)
        × ((update prefix running names io d).0.db ≡ d.db)
        × ((update prefix running names io d).0.file ≡ d.file)
  unfolding update compare_states libvirt_domain_name
  update-failed names io d n h r = elim (Option-cases (new_states prefix running names [])) [
    | inl e ↦ rw e (refl, refl, refl)
    | inr (m, e) ↦ absurd (all_read names [] m (id n) e h r)
  ]
