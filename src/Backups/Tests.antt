-- ===== src/Backups/Tests.antt =====
-- A database of two backups, one of them with a date.
use mulch.Prelude.{
  ℕ, ◌≡◌, refl, ◌&&◌, ◌||◌, none, some, false, not, eqb, ltb, [], ◌∷◌, if◌then◌else◌, ok,
}
use mulch.GoMap.{get}
use mulch.GoMap.Laws.{IsMap}
use mulch.Text.{Str, lit, str_eq, str_beq}
use mulch.Disk.{Io, write_failed}
use mulch.Vm.Samples.{plain_config}
use mulch.Vm.{Vm}
use mulch.Backups.{
  Backup, Entries, BackupDatabase, Volume, deleted, delete_expired, get_by_name, expire,
}
use mulch.Backups.Expiration.{is_deleted, holds, is_in, delete_expired_lem}
use mulch.Backups.Restart.{restart, expire-restart}

abbrev site : Vm
site = record {
  address = 1;
  secret_uuid = [];
  config = plain_config (lit "site");
  author_key = lit "admin";
  init_date = 10;
  last_ip = [];
  locked = false;
  wip = [];
  assigned_mac = [];
  assigned_ipv4 = [];
}

abbrev backup_of : Str → ℕ → Backup
backup_of name time = record {
  disk_name = name;
  created = 11;
  expire = time;
  author_key = lit "admin";
  vm = site;
}

abbrev two_backups : Entries
two_backups =
    (lit "site-1", backup_of (lit "site-1") 20) ∷ (lit "site-2", backup_of (lit "site-2") 0) ∷ []

abbrev stored : BackupDatabase
stored = record { db = two_backups; file = some two_backups }

two_backups-IsMap : IsMap two_backups
unfolding get str_beq
two_backups-IsMap = (refl, (refl, tt))

abbrev at_noon : Str → ℕ
at_noon name = 30

abbrev full_disk : Str → Io
full_disk name = write_failed

abbrev all_deleted : Str → Volume
all_deleted name = deleted

delete_expired_example :
    let gone =
      holds (λ b. not (eqb b.expire 0) && ltb b.expire 30) (get (lit "site-1") two_backups)
      && is_deleted deleted in
    (get
        (lit "site-1")
        (delete_expired at_noon full_disk all_deleted
          (record { backups = stored; removed = [] })).backups.db
      ≡ (if gone then none else get (lit "site-1") two_backups))
    × (is_in
          (lit "site-1")
          (delete_expired at_noon full_disk all_deleted
            (record { backups = stored; removed = [] })).removed
        ≡ (gone || is_in (lit "site-1") []))
delete_expired_example =
    delete_expired_lem at_noon full_disk all_deleted (record { backups = stored; removed = [] })
      (lit "site-1") two_backups-IsMap (refl, (refl, tt))

site_2_lem : get_by_name (lit "site-2") stored ≡ some (backup_of (lit "site-2") 0)
unfolding get_by_name get str_beq
site_2_lem = refl

expire-restart_example :
    (get_by_name (lit "site-2") (expire (lit "site-2") 40 stored).0
      ≡ some (backup_of (lit "site-2") 40))
    × ((expire (lit "site-2") 40 stored).1 ≡ none)
    × ((d : BackupDatabase) × (restart (expire (lit "site-2") 40 stored).0.file ≡ ok d)
        × (get_by_name (lit "site-2") d ≡ some (backup_of (lit "site-2") 0)))
expire-restart_example =
    expire-restart (lit "site-2") 40 stored (backup_of (lit "site-2") 0) refl site_2_lem
