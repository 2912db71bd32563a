-- ===== src/Backups/Expiration.antt =====
-- What the deletion of the expired backups leaves.
use mulch.Prelude.{
  ℕ, ◌≡◌, refl, ◌∙◌, ap, Bool, true, false, not, ◌&&◌, ◌||◌, Option, none, some, List, [], ◌∷◌, any,
  arith, if◌then◌else◌, ◌==◌, eqb, ltb, Bool-cases, Option-cases, inl, inr,
}
use mulch.GoMap.{get, has, remove}
use mulch.GoMap.Laws.{get-remove, IsMap}
use mulch.Text.{Str, str_eq, str_beq_iff}
use mulch.Disk.{Io}
use mulch.Backups.{
  Backup, Entries, BackupDatabase, Volume, deleted, not_there, not_deleted, Store, save, delete,
  delete_found, get_by_name, backup_delete, is_expired, expired_names, delete_each, delete_expired,
}

-- The key of each backup is its `DiskName`.
abbrev pub IsKeyed : Entries → Type 0
IsKeyed [] = Unit
IsKeyed ((k, b) ∷ m) = (b.disk_name ≡ k) × IsKeyed m

abbrev pub is_deleted : Volume → Bool
is_deleted deleted = true
is_deleted not_there = false
is_deleted not_deleted = false

abbrev pub holds : (Backup → Bool) → Option Backup → Bool
holds p none = false
holds p (some b) = p b

get-remove_backup :
    (k j : Str) (m : Entries) → get j (remove k m) ≡ (if k == j then none else get j m)
get-remove_backup k j m = get-remove k j m

has-get : (k : Str) (m : Entries) → has k m ≡ holds (λ b. true) (get k m)
unfolding get has
has-get k [] = refl
has-get k ((i, w) ∷ m) = ground (arith, has-get k m)

get-delete :
    (name : Str) (io : Io) (d : BackupDatabase) (k : Str)
    → get k (delete name io d).0.db ≡ (if name == k then none else get k d.db)
unfolding delete save
get-delete name io d k = elim (Bool-cases (has name d.db)) [
  | inl e ↦ rw e (get-remove_backup name k d.db)
  | inr e ↦
      rw e (ground (arith, str_beq_iff name k, has-get name d.db, Option-cases (get name d.db)))
]

get-delete_found :
    (name : Str) (io : Io) (volume : Volume) (s : Store) (k : Str) (o : Option Backup)
    → get name s.backups.db ≡ o
    → get k (delete_found name io volume s o).0.backups.db
      ≡ (if name == k && is_deleted volume then none else get k s.backups.db)
unfolding delete_found
get-delete_found name io not_there s k none e = ground arith
get-delete_found name io not_there s k (some b) e = ground arith
get-delete_found name io not_deleted s k none e = ground arith
get-delete_found name io not_deleted s k (some b) e = ground arith
get-delete_found name io deleted s k none e = ground (arith, str_beq_iff name k, e)
get-delete_found name io deleted s k (some b) e = get-delete name io s.backups k ∙ ground arith

abbrev pub is_in : Str → List Str → Bool
is_in k names = any (λ n. n == k) names

removed-delete_found :
    (name : Str) (io : Io) (volume : Volume) (s : Store) (k : Str) (o : Option Backup)
    → get name s.backups.db ≡ o
    → is_in k (delete_found name io volume s o).0.removed ≡ (
        (name == k && is_deleted volume && holds (λ b. true) (get k s.backups.db))
        || is_in k s.removed)
unfolding delete_found
removed-delete_found name io not_there s k none e = ground arith
removed-delete_found name io not_there s k (some b) e = ground arith
removed-delete_found name io not_deleted s k none e = ground arith
removed-delete_found name io not_deleted s k (some b) e = ground arith
removed-delete_found name io deleted s k none e = ground (arith, str_beq_iff name k, e)
removed-delete_found name io deleted s k (some b) e = ground (arith, str_beq_iff name k, e)

module _ (now : Str → ℕ) (io : Str → Io) (volumes : Str → Volume) where
  get-delete_each :
      (names : List Str) (s : Store) (k : Str)
      → get k (delete_each now io volumes names s).backups.db
        ≡ (if is_in k names && is_deleted (volumes k) then none else get k s.backups.db)
  unfolding delete_each backup_delete get_by_name
  get-delete_each [] s k = ground arith
  get-delete_each (name ∷ names) s k = ground (
    arith,
    get-delete_each names (delete_found name (io name) (volumes name) s (get name s.backups.db)).0
        k,
    get-delete_found name (io name) (volumes name) s k (get name s.backups.db) refl,
    str_beq_iff name k,
  )

  removed-delete_each :
      (names : List Str) (s : Store) (k : Str)
      → is_in k (delete_each now io volumes names s).removed ≡ (
          (is_in k names && is_deleted (volumes k) && holds (λ b. true) (get k s.backups.db))
          || is_in k s.removed)
  unfolding delete_each backup_delete get_by_name
  removed-delete_each [] s k = ground arith
  removed-delete_each (name ∷ names) s k = ground (
    arith,
    removed-delete_each names
        (delete_found name (io name) (volumes name) s (get name s.backups.db)).0 k,
    get-delete_found name (io name) (volumes name) s k (get name s.backups.db) refl,
    removed-delete_found name (io name) (volumes name) s k (get name s.backups.db) refl,
    str_beq_iff name k,
  )

  expired_names_lem :
      (m : Entries) (k : Str)
      → IsMap m
      → IsKeyed m
      → is_in k (expired_names now io volumes m) ≡ holds (is_expired (now k)) (get k m)
  unfolding expired_names get
  expired_names_lem [] k i h = refl
  expired_names_lem ((j, b) ∷ m) k i h =
      ground
        (arith, expired_names_lem m k i.1 h.1, i.0, h.0, str_beq_iff j k, str_beq_iff b.disk_name k)

  -- If no name has two entries and each entry stands under its disk name, then deleting the expired backups takes from the database exactly the backups that have an expiration date in the past and whose volume libvirt deletes, whether or not the file can be saved; and the volumes deleted in the process are exactly theirs, so none of a backup that has not expired.
  pub delete_expired_lem :
      (s : Store) (k : Str)
      → IsMap s.backups.db
      → IsKeyed s.backups.db
      → let gone =
          holds (λ b. not (eqb b.expire 0) && ltb b.expire (now k)) (get k s.backups.db)
          && is_deleted (volumes k) in
        (get k (delete_expired now io volumes s).backups.db
          ≡ (if gone then none else get k s.backups.db))
        × (is_in k (delete_expired now io volumes s).removed ≡ (gone || is_in k s.removed))
  unfolding delete_expired is_expired
  delete_expired_lem s k i h =
      let e = expired_names_lem s.backups.db k i h in
      (
        get-delete_each (expired_names now io volumes s.backups.db) s k
            ∙ ap (λ b. if b && is_deleted (volumes k) then none else get k s.backups.db) e,
        removed-delete_each (expired_names now io volumes s.backups.db) s k
            ∙ ap
                (λ b.
                  (b && is_deleted (volumes k) && holds (λ b. true) (get k s.backups.db))
                  || is_in k s.removed)
                e
            ∙ ground (arith, Option-cases (get k s.backups.db)),
      )
