-- ===== src/Secrets/Tombstones.antt =====
-- `Get` after `set`, `delete` and a synchronisation.
use mulch.Prelude.{ℕ, ◌<◌, ◌≡◌, refl, true, false, Option, none, some, arith, if◌then◌else◌, ◌==◌}
use mulch.GoMap
use mulch.GoMap.Laws.{IsMap, beq_refl, get-put, put-IsMap}
use mulch.Text.{Str, str_eq, str_beq_iff}
use mulch.Disk.{Io}
use mulch.Secrets.{
  Secret, Entries, SecretDatabase, SecretError, found, get, set_low, delete_low, delete_found,
  tombstone,
}
use mulch.Secrets.{sync_with_database}
use mulch.Secrets.Sync.{IsKeyed, latest, sync_with_database_lem}
use mulch.Secrets.Peers.Converge.{IsKeyed-get, put-IsKeyed}
use mulch.Secrets.Peers.{serve_sync}

-- A secret that was set is found with its value, its author and its date, and no other secret is
-- affected.
pub get-set_low :
    (key value author : Str) (now : ℕ) (d : SecretDatabase) (j : Str)
    → get j (set_low key value author now d) ≡ (
        if key == j
        then some (record {
          key = key;
          value = value;
          modified = now;
          author_key = author;
          deleted = false;
        })
        else get j d)
unfolding get set_low
get-set_low key value author now d j = ground (
  arith,
  get-put key j
      (record { key = key; value = value; modified = now; author_key = author; deleted = false })
      d.db,
  str_beq_iff key j,
)

-- `delete` after its lookup.
get-delete_found :
    (key author : Str) (now : ℕ) (d : SecretDatabase) (j : Str) (o : Option Secret)
    → o ≡ get key d
    → get j (delete_found key author now d o).0 ≡ (if key == j then none else get j d)
unfolding get delete_found tombstone
get-delete_found key author now d j none e = ground (arith, str_beq_iff key j)
get-delete_found key author now d j (some s) e =
    ground (arith, get-put key j (tombstone author now s) d.db)

-- `delete` reports a missing secret exactly when `Get` does not find it; whatever it reports, the
-- secret is then not found and every other secret is found as before.
get-delete_low :
    (key author : Str) (now : ℕ) (d : SecretDatabase) (j : Str)
    → let (d', e) = delete_low key author now d in
      (e ≡ elim (get key d) [ none ↦ some SecretError.not_found | some s ↦ none ])
      × (get j d' ≡ (if key == j then none else get j d))
unfolding delete_low
get-delete_low key author now d j =
    (ground arith, get-delete_found key author now d j (get key d) refl)

delete_found-ok :
    (key author : Str) (now : ℕ) (d : SecretDatabase) (o : Option Secret)
    → IsMap d.db
    → IsKeyed d.db
    → o ≡ get key d
    → (delete_found key author now d o).1 ≡ none
    → let db = (delete_found key author now d o).0.db in
      IsMap db
      × IsKeyed db
      × ((s : Secret) × (GoMap.get key db ≡ some s) × (s.deleted ≡ true) × (s.modified ≡ now))
unfolding get delete_found tombstone
delete_found-ok key author now d none m k e h = absurd (cc)
delete_found-ok key author now d (some s) m k e h =
    let t = tombstone author now s in
    (
      put-IsMap key t d.db m,
      put-IsKeyed key t d.db (IsKeyed-get d.db key s k (ground arith)) k,
      (t, rw (get-put, beq_refl), refl, refl),
    )

found-latest :
    (o : Option Secret) (t : Secret)
    → t.deleted ≡ true
    → ((x : Secret) → o ≡ some x → x.modified < t.modified)
    → found (latest o (some t)) ≡ none
unfolding found
found-latest none t h older = ground arith
found-latest (some s) t h older = ground (arith, older s refl)

db-serve_sync :
    (io : Io) (sent : Entries) (b : SecretDatabase)
    → (serve_sync io sent b).0.db ≡ (sync_with_database io sent b).0.db
unfolding serve_sync
db-serve_sync io sent b = ground arith

-- A deletion reaches the other server: once `a` has deleted a secret, later than the version that
-- `b` has, if it has one, `b` no longer finds it after a synchronisation, whether or not `b` could
-- save. The database of `a` is a map whose entries stand under their own keys.
pub delete_propagates :
    (io : Io) (key author : Str) (now : ℕ) (a b : SecretDatabase)
    → IsMap a.db
    → IsKeyed a.db
    → (delete_low key author now a).1 ≡ none
    → ((t : Secret) → GoMap.get key b.db ≡ some t → t.modified < now)
    → get key (serve_sync io (delete_low key author now a).0.db b).0 ≡ none
unfolding get delete_low
delete_propagates io key author now a b m k e older =
    let (m', k', (t, at, dead, date)) = delete_found-ok key author now a (get key a) m k refl e in
    let merged = sync_with_database_lem io (delete_low key author now a).0.db b key m' k' in
    rw (db-serve_sync, merged.0, at) (found-latest (GoMap.get key b.db) t dead (rw date older))
