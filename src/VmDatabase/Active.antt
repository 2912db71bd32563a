-- ===== src/VmDatabase/Active.antt =====
-- The active entry of a name: what `GetActiveEntryByName` finds, and what the next revision is.
use mulch.Prelude.{
  ℕ, ◌≤◌, ◌<◌, ◌≡◌, refl, ap, true, ◌&&◌, Option, none, some, [], ◌∷◌, arith, if◌then◌else◌, ◌==◌,
  Option-cases, inl, inr,
}
use mulch.GoMap
use mulch.GoMap.Laws.{IsMap}
use mulch.Text.{Str, str_eq, str_beq_iff}
use mulch.VmName.{VmName, id, IsVmName}
use mulch.VmName.RoundTrip.{id-injective}
use mulch.Vm.{VmEntry}
use mulch.VmDatabase.{VmDatabase}
use mulch.VmDatabase.Lookups.{
  next, max_active, active_at, get_active_entry_by_name, max_revision, get_next_revision,
}
use mulch.VmDatabase.Invariant.{Db, active_count, IsKeyed, IsConsistent}

-- The first active entry of the name.
unfoldable pub find_active : Str → Db → Option VmEntry
find_active n [] = none
find_active n ((k, e) ∷ m) = if e.active && e.name.name == n then some e else find_active n m

abbrev pub revision_of : Option VmEntry → Option ℕ
revision_of none = none
revision_of (some e) = some e.name.revision

max_active-absent :
    (n : Str) (m : Db) (max : Option ℕ) → active_count n m ≡ 0 → max_active n m max ≡ max
unfolding max_active active_count
max_active-absent n [] max h = refl
max_active-absent n ((k, e) ∷ m) max h = ground (arith, max_active-absent n m max)

max_active-find :
    (n : Str) (m : Db) → active_count n m ≤ 1 → max_active n m none ≡ revision_of (find_active n m)
unfolding max_active active_count find_active
max_active-find n [] h = refl
max_active-find n ((k, e) ∷ m) h =
    ground (arith, max_active-find n m, max_active-absent n m (some e.name.revision))

get-find_active :
    (n : Str) (m : Db) (e : VmEntry)
    → IsMap m
    → IsKeyed m
    → find_active n m ≡ some e
    → (GoMap.get (id e.name) m ≡ some e) × (e.name.name ≡ n) × (e.active ≡ true)
unfolding find_active GoMap.get
get-find_active n [] e h k f = absurd (cc)
get-find_active n ((i, x) ∷ m) e h k f =
    ground (arith, get-find_active n m e, str_beq_iff x.name.name n, str_beq_iff i (id e.name))

abbrev pub found_active : Option VmEntry → Option (Option VmEntry)
found_active none = none
found_active (some e) = some (some e)

-- In a consistent database `GetActiveEntryByName` gives the active entry of the name, if there is
-- one, and the error otherwise: it never gives a nil entry without an error.
pub get_active_entry_by_name_lem :
    (n : Str) (d : VmDatabase)
    → IsConsistent d.db
    → get_active_entry_by_name n d ≡ found_active (find_active n d.db)
unfolding get_active_entry_by_name
get_active_entry_by_name_lem n d c =
    rw (max_active-find n d.db (c.single n)) (go (find_active n d.db) refl)
  where
    go :
        (o : Option VmEntry)
        → find_active n d.db ≡ o
        → active_at n (revision_of o) d ≡ found_active o
    go none e = refl
    go (some x) e =
        let (at, same, on) = get-find_active n d.db x c.is_map c.keyed e in rw (← same, at)

-- An entry found under the id of a name has that name.
pub name-get :
    (v : VmName) (m : Db) (e : VmEntry)
    → IsVmName v
    → IsKeyed m
    → GoMap.get (id v) m ≡ some e
    → e.name ≡ v
unfolding GoMap.get
name-get v [] e w k h = absurd (cc)
name-get v ((i, x) ∷ m) e w k h =
    ground (arith, name-get v m e, str_beq_iff i (id v), id-injective x.name v)

max_revision-grows : (n : Str) (m : Db) (max : Option ℕ) → next max ≤ next (max_revision n m max)
unfolding max_revision
max_revision-grows n [] max = omega arith
max_revision-grows n ((k, e) ∷ m) none =
    ground (arith, max_revision-grows n m none, max_revision-grows n m (some e.name.revision))
max_revision-grows n ((k, e) ∷ m) (some r) =
    ground (arith, max_revision-grows n m (some r), max_revision-grows n m (some e.name.revision))

revision-lt-next :
    (n : Str) (m : Db) (max : Option ℕ) (k : Str) (e : VmEntry)
    → GoMap.get k m ≡ some e
    → e.name.name ≡ n
    → e.name.revision < next (max_revision n m max)
unfolding max_revision GoMap.get
revision-lt-next n [] max k e h s = absurd (cc)
revision-lt-next n ((i, x) ∷ m) none k e h s = ground (
  arith,
  revision-lt-next n m none k e,
  revision-lt-next n m (some x.name.revision) k e,
  max_revision-grows n m (some x.name.revision),
  str_beq_iff x.name.name n,
)
revision-lt-next n ((i, x) ∷ m) (some r) k e h s = ground (
  arith,
  revision-lt-next n m (some r) k e,
  revision-lt-next n m (some x.name.revision) k e,
  max_revision-grows n m (some x.name.revision),
  max_revision-grows n m (some r),
  str_beq_iff x.name.name n,
)

-- The revision that `GetNextRevisionForName` gives is free: in a consistent database no entry
-- stands under its id, provided that the name is valid and the revision fits an `int`.
get_next_revision_free :
    (n : Str) (d : VmDatabase)
    → IsVmName (record { name = n; revision = get_next_revision n d })
    → IsConsistent d.db
    → GoMap.get (id (record { name = n; revision = get_next_revision n d })) d.db ≡ none
unfolding get_next_revision
get_next_revision_free n d w c = elim (Option-cases (GoMap.get (id v) d.db)) [
  | inl e ↦ e
  | inr (x, e) ↦
      let same : x.name ≡ v = name-get v d.db x w c.keyed e in
      absurd (
        omega (
          arith,
          revision-lt-next n d.db none (id v) x e (ap (λ (y : VmName). y.name) same),
          ap (λ (y : VmName). y.revision) same,
        ))
]
  where
    v : VmName
    v = record { name = n; revision = get_next_revision n d }
