-- ===== src/Backups/Restart.antt =====
-- The form that the operations keep, and what a restart finds.
use mulch.Prelude.{
  ℕ, ◌≡◌, refl, ◌∙◌, Option, none, some, [], ◌∷◌, arith, Bool-cases, inl, inr, Outcome, ok,
}
use mulch.GoMap.{get, has, put, remove}
use mulch.GoMap.Laws.{get-put, IsMap, put-IsMap, remove-IsMap}
use mulch.Text.{Str, str_eq, str_beq_iff}
use mulch.Disk.{Io, done}
use mulch.Backups.{
  Backup, Entries, BackupError, BackupDatabase, missing, content, save, load, saved,
  new_backup_database, delete, add, get_by_name, expire, expire_found,
}
use mulch.Backups.Expiration.{IsKeyed}

pub record IsStored (d : BackupDatabase) : Type 0 where
  pub once : IsMap d.db
  pub keyed : IsKeyed d.db

put-IsKeyed :
    (k : Str) (b : Backup) (m : Entries) → b.disk_name ≡ k → IsKeyed m → IsKeyed (put k b m)
unfolding put
put-IsKeyed k b [] e h = (e, tt)
put-IsKeyed k b ((j, c) ∷ m) e h = ground (arith, put-IsKeyed k b m, h.0, h.1)

remove-IsKeyed : (k : Str) (m : Entries) → IsKeyed m → IsKeyed (remove k m)
unfolding remove
remove-IsKeyed k [] h = tt
remove-IsKeyed k ((j, c) ∷ m) h = ground (arith, remove-IsKeyed k m, h.0, h.1)

get-IsKeyed : (k : Str) (b : Backup) (m : Entries) → IsKeyed m → get k m ≡ some b → b.disk_name ≡ k
unfolding get
get-IsKeyed k b [] h e = ground (arith, e)
get-IsKeyed k b ((j, c) ∷ m) h e = ground (arith, get-IsKeyed k b m h.1, h.0, str_beq_iff j k, e)

-- The methods that change the database.
pub data Operation : Type 0 where
  adding : Backup → Io → Operation
  deleting : Str → Io → Operation
  expiring : Str → ℕ → Operation

abbrev pub apply : Operation → BackupDatabase → BackupDatabase × Option BackupError
apply (adding b io) d = add b io d
apply (deleting name io) d = delete name io d
apply (expiring name time) d = expire name time d

expire_found-IsStored :
    (name : Str) (time : ℕ) (d : BackupDatabase) (o : Option Backup)
    → get name d.db ≡ o
    → IsStored d
    → IsStored (expire_found name time d o).0
unfolding expire_found
expire_found-IsStored name time d none e i = i
expire_found-IsStored name time d (some b) e i = record {
  once = put-IsMap name (record b { expire = time }) d.db i.once;
  keyed =
      put-IsKeyed name (record b { expire = time }) d.db (get-IsKeyed name b d.db i.keyed e)
        i.keyed;
}

-- `Add`, `Delete` and `Expire`, on all their branches, leave a database in which no name has two entries and each backup stands under its disk name, if it was so before.
apply-IsStored : (op : Operation) (d : BackupDatabase) → IsStored d → IsStored (apply op d).0
unfolding add delete expire save
apply-IsStored (adding b io) d i = elim (Bool-cases (has b.disk_name d.db)) [
  | inl e ↦ rw e i
  | inr e ↦ rw e (record {
    once = put-IsMap b.disk_name b d.db i.once;
    keyed = put-IsKeyed b.disk_name b d.db refl i.keyed;
  })
]
apply-IsStored (deleting name io) d i = elim (Bool-cases (has name d.db)) [
  | inl e ↦
      rw e
        (record { once = remove-IsMap name d.db i.once; keyed = remove-IsKeyed name d.db i.keyed })
  | inr e ↦ rw e i
]
apply-IsStored (expiring name time) d i = expire_found-IsStored name time d (get name d.db) refl i

-- A start from what the file holds.
abbrev pub restart : Option Entries → Outcome BackupError BackupDatabase
restart none = new_backup_database missing done
restart (some entries) = new_backup_database (content entries) done

-- A backup that is in the database, the file being up to date: after `Expire`, which reports no error, the database has the new date, and a server that starts again from the file has the old one.
pub expire-restart :
    (name : Str) (time : ℕ) (d : BackupDatabase) (b : Backup)
    → d.file ≡ some d.db
    → get_by_name name d ≡ some b
    → (get_by_name name (expire name time d).0 ≡ some (record b { expire = time }))
      × ((expire name time d).1 ≡ none)
      × ((d' : BackupDatabase) × (restart (expire name time d).0.file ≡ ok d')
          × (get_by_name name d' ≡ some b))
unfolding get_by_name expire expire_found new_backup_database load saved save
expire-restart name time d b f e = (
  rw e
      (get-put name name (record b { expire = time }) d.db ∙ ground (arith, str_beq_iff name name)),
  rw e refl,
  (record { db = d.db; file = some d.db }, rw (e, f) refl, e),
)
