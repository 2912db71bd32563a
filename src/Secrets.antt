-- ===== src/Secrets.antt =====
-- cmd/mulchd/server/secret_database.go: the secrets, their tombstones and their synchronisation.
-- A method returns the database that it leaves behind, and its error (`none` is nil). Times are
-- numbers, a later one being greater; `now` is what time.Now() returns.
pub mod Sync
pub mod Tombstones
pub mod Peers
pub mod CleanKey
mod Tests
use mulch.Prelude.{
  ℕ, ◌+◌, Bool, true, false, not, ◌||◌, Option, none, some, List, [], ◌∷◌, ltb, if◌then◌else◌,
}
use mulch.GoMap
use mulch.GoMap.{Map}
use mulch.Text.{Str, str_eq}
use mulch.Disk.{Io, write_file, succeeded}

pub record Secret : Type 0 where
  pub key : Str
  pub value : Str
  pub modified : ℕ
  pub author_key : Str
  pub deleted : Bool

abbrev pub Entries : Type 0
Entries = Map Str Secret

pub data SecretError : Type 0 where
  not_found save_failed call_failed : SecretError

pub record SecretDatabase : Type 0 where
  pub db : Entries
  pub file : Option Entries

-- `save`, and what its caller gets
unfoldable pub save : Io → SecretDatabase → SecretDatabase × Option SecretError
save io d = (
  record d { file = write_file io d.db d.file },
  if succeeded io then none else some SecretError.save_failed,
)

-- A deleted secret is not found.
found : Option Secret → Option Secret
found none = none
found (some s) = if s.deleted then none else some s

unfoldable pub get : Str → SecretDatabase → Option Secret
unfolding found
get key d = found (GoMap.get key d.db)

-- `set`
unfoldable pub set_low : Str → Str → Str → ℕ → SecretDatabase → SecretDatabase
set_low key value author now d = record d {
  db =
      GoMap.put key
        (record { key = key; value = value; modified = now; author_key = author; deleted = false })
        d.db;
}

tombstone : Str → ℕ → Secret → Secret
tombstone author now s = record s {
  value = [];
  deleted = true;
  modified = now;
  author_key = author;
}

delete_found : Str → Str → ℕ → SecretDatabase → Option Secret → SecretDatabase × Option SecretError
delete_found key author now d none = (d, some SecretError.not_found)
delete_found key author now d (some s) =
    (record d { db = GoMap.put key (tombstone author now s) d.db }, none)

-- `delete`
unfoldable pub delete_low : Str → Str → ℕ → SecretDatabase → SecretDatabase × Option SecretError
unfolding delete_found tombstone get
delete_low key author now d = delete_found key author now d (get key d)

-- `GetKeys`
get_keys_of : Entries → List Str
get_keys_of [] = []
get_keys_of ((k, s) ∷ m) = let rest = get_keys_of m in if s.deleted then rest else k ∷ rest

pub get_keys : SecretDatabase → List Str
unfolding get_keys_of
get_keys d = get_keys_of d.db

-- The two counts of `GetStats`: active and trashed.
count_stats : Entries → ℕ × ℕ
count_stats [] = (0, 0)
count_stats ((k, s) ∷ m) =
    let (active, trash) = count_stats m in
    if s.deleted then (active, trash + 1) else (active + 1, trash)

pub get_stats : SecretDatabase → ℕ × ℕ
unfolding count_stats
get_stats d = count_stats d.db

-- The two tests of the loop of `SyncWithDatabase`, on our entry for the key, if any.
-- `!exists || entry.Modified.After(my.Modified)`
accepts : Option Secret → Secret → Bool
accepts none entry = true
accepts (some my) entry = ltb my.modified entry.modified

-- `exists && !my.Modified.After(entry.Modified)`
known_to_peer : Option Secret → Secret → Bool
known_to_peer none entry = false
known_to_peer (some my) entry = not (ltb entry.modified my.modified)

-- `my` is read before the entry is written; both tests delete the same key.
unfoldable pub sync_entry : Secret → Entries × Map Str Bool → Entries × Map Str Bool
unfolding accepts known_to_peer
sync_entry entry (db, response_keys) =
    let my = GoMap.get entry.key db in
    (
      if accepts my entry then GoMap.put entry.key entry db else db,
      if accepts my entry || known_to_peer my entry
          then GoMap.remove entry.key response_keys
          else response_keys,
    )

unfoldable pub sync_loop : List Secret → Entries × Map Str Bool → Entries × Map Str Bool
sync_loop [] s = s
sync_loop (entry ∷ rest) s = sync_loop rest (sync_entry entry s)

unfoldable pub response_keys_of : Entries → Map Str Bool
response_keys_of [] = []
response_keys_of ((k, s) ∷ m) = GoMap.put k true (response_keys_of m)

-- `newer[key] = db.db[key]`; every response key is a key of the database.
unfoldable pub copy_entry : Str → Option Secret → Entries → Entries
copy_entry k none newer = newer
copy_entry k (some s) newer = GoMap.put k s newer

unfoldable pub collect : Map Str Bool → Entries → Entries
collect [] db = []
collect ((k, b) ∷ ks) db = copy_entry k (GoMap.get k db) (collect ks db)

-- `SyncWithDatabase`: the database after the merge, our newer entries, and the error of `save`.
unfoldable pub sync_with_database :
    Io → Entries → SecretDatabase → SecretDatabase × Entries × Option SecretError
sync_with_database io other d =
    let (db, response_keys) = sync_loop (GoMap.values other) (d.db, response_keys_of d.db) in
    let (d', e) = save io (record d { db = db }) in (d', collect response_keys db, e)
