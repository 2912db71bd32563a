-- ===== src/Backups.antt =====
-- cmd/mulchd/server/backup_database.go and backup.go: the backups, their expiration, their deletion. A
-- method returns the database that it leaves behind, and its error (`none` is nil). Times are numbers, a
-- later one being greater, the zero time being 0.
pub mod Expiration
pub mod Restart
mod Tests
use mulch.Prelude.{
  ℕ, Bool, true, false, not, ◌&&◌, Option, none, some, List, [], ◌∷◌, eqb, ltb, length,
  if◌then◌else◌, Outcome, ok, err, ◌>>=◌,
}
use mulch.GoMap
use mulch.GoMap.{Map, has, put, remove, keys}
use mulch.Text.{Str, str_eq}
use mulch.Disk.{Io, write_file, succeeded}
use mulch.Vm.{Vm}

pub record Backup : Type 0 where
  pub disk_name : Str
  pub created : ℕ
  pub expire : ℕ
  pub author_key : Str
  pub vm : Vm

abbrev pub Entries : Type 0
Entries = Map Str Backup

pub data BackupError : Type 0 where
  not_found already_exists save_failed bad_mode unreadable lookup_failed delete_failed : BackupError

pub record BackupDatabase : Type 0 where
  pub db : Entries
  pub file : Option Entries

-- What `os.Stat`, the check of the file's mode, and the decoder find.
pub data BackupFile : Type 0 where
  missing wrong_mode broken : BackupFile
  content : Entries → BackupFile

-- `save`, and what its caller gets
unfoldable pub save : Io → BackupDatabase → BackupDatabase × Option BackupError
save io d = (
  record d { file = write_file io d.db d.file },
  if succeeded io then none else some BackupError.save_failed,
)

-- `load`
unfoldable pub load : BackupFile → Outcome BackupError BackupDatabase
load missing = ok (record { db = []; file = none })
load wrong_mode = err BackupError.bad_mode
load broken = err BackupError.unreadable
load (content entries) = ok (record { db = entries; file = some entries })

unfoldable pub saved : BackupDatabase × Option BackupError → Outcome BackupError BackupDatabase
saved (d, none) = ok d
saved (d, some e) = err e

-- `NewBackupDatabase`
unfoldable pub new_backup_database : BackupFile → Io → Outcome BackupError BackupDatabase
unfolding saved
new_backup_database file io = load file >>= λ d. saved (save io d)

-- `delete`, and `Delete`
unfoldable pub delete : Str → Io → BackupDatabase → BackupDatabase × Option BackupError
delete name io d =
    if has name d.db
    then save io (record d { db = remove name d.db })
    else (d, some BackupError.not_found)

-- `Add`
unfoldable pub add : Backup → Io → BackupDatabase → BackupDatabase × Option BackupError
add backup io d =
    if has backup.disk_name d.db
    then (d, some BackupError.already_exists)
    else save io (record d { db = put backup.disk_name backup d.db })

unfoldable pub get_names : BackupDatabase → List Str
get_names d = keys d.db

unfoldable pub get_by_name : Str → BackupDatabase → Option Backup
get_by_name name d = GoMap.get name d.db

unfoldable pub count : BackupDatabase → ℕ
count d = length d.db

unfoldable pub expire_found :
    Str → ℕ → BackupDatabase → Option Backup → BackupDatabase × Option BackupError
expire_found name time d none = (d, some BackupError.not_found)
expire_found name time d (some b) =
    (record d { db = put name (record b { expire = time }) d.db }, none)

-- `Expire`: it does not save.
unfoldable pub expire : Str → ℕ → BackupDatabase → BackupDatabase × Option BackupError
unfolding expire_found
expire name time d = expire_found name time d (GoMap.get name d.db)

-- How the calls of libvirt turn out for a volume.
pub data Volume : Type 0 where
  deleted not_there not_deleted : Volume

-- The database, and the names of the volumes that libvirt has deleted.
pub record Store : Type 0 where
  pub backups : BackupDatabase
  pub removed : List Str

unfoldable pub delete_found : Str → Io → Volume → Store → Option Backup → Store × Option BackupError
delete_found name io volume s none = (s, some BackupError.not_found)
delete_found name io not_there s (some b) = (s, some BackupError.lookup_failed)
delete_found name io not_deleted s (some b) = (s, some BackupError.delete_failed)
delete_found name io deleted s (some b) =
    let r = delete name io s.backups in (record { backups = r.0; removed = name ∷ s.removed }, r.1)

-- `BackupDelete`
unfoldable pub backup_delete : Str → Io → Volume → Store → Store × Option BackupError
backup_delete name io volume s = delete_found name io volume s (get_by_name name s.backups)

-- `backup.Expire` is set, and before `now`.
unfoldable pub is_expired : ℕ → Backup → Bool
is_expired now b = not (eqb b.expire 0) && ltb b.expire now

-- `now` gives the time at which a backup is looked at, `io` and `volumes` the outcomes of its deletion.
module _ (now : Str → ℕ) (io : Str → Io) (volumes : Str → Volume) where
  unfoldable pub expired_names : Entries → List Str
  expired_names [] = []
  expired_names ((k, b) ∷ m) =
      let rest = expired_names m in
      if is_expired (now b.disk_name) b then b.disk_name ∷ rest else rest

  unfoldable pub delete_each : List Str → Store → Store
  delete_each [] s = s
  delete_each (name ∷ names) s = delete_each names (backup_delete name (io name) (volumes name) s).0

  -- `deleteExpired`: an error is logged, and the others are still deleted.
  unfoldable pub delete_expired : Store → Store
  delete_expired s = delete_each (expired_names s.backups.db) s
