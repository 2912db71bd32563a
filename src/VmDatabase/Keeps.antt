-- ===== src/VmDatabase/Keeps.antt =====
-- Every method keeps the database consistent, whatever it reports.
use mulch.Prelude.{
  ℕ, ◌+◌, ◌≤◌, ◌≡◌, refl, ◌≢◌, ◌⊎◌, ap, sym, ◌∙◌, Option, none, some, [], ◌∷◌, arith, if◌then◌else◌,
  ◌==◌, inl, inr,
}
use native.Mathlib.Decide.{ℕ_discrete}
use mulch.GoMap
use mulch.GoMap.{Map}
use mulch.GoMap.Laws.{IsMap}
use mulch.Text.{Str, str_eq, str_beq_iff}
use mulch.Domain.{Domain}
use mulch.VmName.{VmName, id}
use mulch.Vm.{VmEntry}
use mulch.VmDatabase.{VmDatabase, Host, save}
use mulch.VmDatabase.GenDomains.{gen_entry, gen_domains}
use mulch.VmDatabase.Update.{set_active, is_revision}
use mulch.VmDatabase.Invariant.{
  Db, active_count, IsKeyed, IsConsistent, SameNames, SameNames-IsMap, SameNames-IsKeyed,
}

-- 1 for an entry of the name with the revision.
abbrev one_revision : Str → Option ℕ → VmEntry → ℕ
one_revision n r e =
    if e.name.name == n then (if is_revision r e.name.revision then 1 else 0) else 0

pub revision_count : Str → Option ℕ → Db → ℕ
revision_count n r [] = 0
revision_count n r ((k, e) ∷ m) = one_revision n r e + revision_count n r m

pub active_count-set_active :
    (n j : Str) (r : Option ℕ) (m : Db)
    → active_count j (set_active n r m)
      ≡ (if n == j then revision_count n r m else active_count j m)
unfolding active_count set_active revision_count
active_count-set_active n j r [] = ground arith
active_count-set_active n j r ((k, e) ∷ m) = ground (
  arith,
  active_count-set_active n j r m,
  str_beq_iff n j,
  str_beq_iff e.name.name n,
  str_beq_iff e.name.name j,
)

-- Without the id there is no entry of the name with the revision.
revision_count-absent :
    (n : Str) (r : ℕ) (m : Db)
    → IsKeyed m
    → GoMap.get (id (record { name = n; revision = r })) m ≡ none
    → revision_count n (some r) m ≡ 0
unfolding revision_count GoMap.get
revision_count-absent n r [] k h = refl
revision_count-absent n r ((i, e) ∷ m) k h =
    let v : VmName = record { name = n; revision = r } in
    ground (
      arith,
      revision_count-absent n r m,
      str_beq_iff e.name.name n,
      str_beq_iff i (id v),
      λ (p : e.name ≡ v). ap id p,
    )

pub revision_count-none : (n : Str) (m : Db) → revision_count n none m ≡ 0
unfolding revision_count
revision_count-none n [] = refl
revision_count-none n ((i, e) ∷ m) = ground (arith, revision_count-none n m)

one_revision_name :
    (n : Str) (r : ℕ) (e : VmEntry)
    → one_revision n (some r) e ≢ 0
    → e.name ≡ record { name = n; revision = r }
one_revision_name n r e h = ground (arith, str_beq_iff e.name.name n)

pub revision_count_le :
    (n : Str) (r : ℕ) (m : Db) → IsMap m → IsKeyed m → revision_count n (some r) m ≤ 1
unfolding revision_count
revision_count_le n r [] h k = omega arith
revision_count_le n r ((i, e) ∷ m) h k = elim (ℕ_discrete (one_revision n (some r) e) 0) [
  | yes z ↦ omega (arith, revision_count_le n r m h.1 k.2)
  | no z ↦
      let same : id (record { name = n; revision = r }) ≡ i =
        ap id (sym (one_revision_name n r e z)) ∙ k.0 in
      let gone = revision_count-absent n r m k.2 (rw same h.0) in ground (arith, gone)
]

-- The generation of the domains touches neither names nor states.
pub name-gen_entry :
    (e : VmEntry) (o : Option (Map Str Domain))
    → ((gen_entry e o).0.name ≡ e.name) × ((gen_entry e o).0.active ≡ e.active)
unfolding gen_entry
name-gen_entry e none = (refl, refl)
name-gen_entry e (some out) = (ground arith, ground arith)

pub SameNames-gen_domains : (m : Db) (o : Option (Map Str Domain)) → SameNames m (gen_domains m o).0
unfolding gen_domains
SameNames-gen_domains [] o = tt
SameNames-gen_domains ((k, e) ∷ m) o =
    (refl, sym (name-gen_entry e o).0, SameNames-gen_domains m (gen_entry e o).1)

pub active_count-gen_domains :
    (n : Str) (m : Db) (o : Option (Map Str Domain))
    → active_count n (gen_domains m o).0 ≡ active_count n m
unfolding gen_domains active_count
active_count-gen_domains n [] o = refl
active_count-gen_domains n ((k, e) ∷ m) o =
    ground (arith, name-gen_entry e o, active_count-gen_domains n m (gen_entry e o).1)

gen_domains-IsConsistent :
    (m : Db) (o : Option (Map Str Domain)) → IsConsistent m → IsConsistent (gen_domains m o).0
gen_domains-IsConsistent m o c = record {
  is_map = SameNames-IsMap m (gen_domains m o).0 (SameNames-gen_domains m o) c.is_map;
  keyed = SameNames-IsKeyed m (gen_domains m o).0 (SameNames-gen_domains m o) c.keyed;
  single = λ n. omega (arith, c.single n, active_count-gen_domains n m o);
}

-- After `save` the entries are those it was given, or those with the domains written to.
pub db-save :
    (h : Host) (d : VmDatabase)
    → ((save h d).0.db ≡ d.db) ⊎ ((save h d).0.db ≡ (gen_domains d.db (some [])).0)
unfolding save
db-save h d = ground arith

pub save-IsConsistent :
    (h : Host) (d : VmDatabase) → IsConsistent d.db → IsConsistent (save h d).0.db
save-IsConsistent h d c = elim (db-save h d) [
  | inl e ↦ rw e c
  | inr e ↦ rw e (gen_domains-IsConsistent d.db (some []) c)
]
