-- ===== src/Secrets/Sync.antt =====
-- `SyncWithDatabase` against its description: the latest version of each secret wins, and the
-- answer is what the other side lacks.
use mulch.Prelude.{
  ◌≡◌, refl, Bool, true, Option, none, some, [], ◌∷◌, arith, ltb, if◌then◌else◌, ◌==◌,
}
use mulch.GoMap
use mulch.GoMap.{Map}
use mulch.GoMap.Laws.{IsMap, get-put, get-remove}
use mulch.Text.{Str, str_eq, str_beq_iff}
use mulch.Disk.{Io}
use mulch.Secrets.{
  Secret, Entries, SecretDatabase, save, sync_entry, sync_loop, response_keys_of, copy_entry,
  collect, sync_with_database,
}

-- The entries of a map that was filled by `set` and `SyncWithDatabase` stand under their own keys.
abbrev pub IsKeyed : Entries → Type 0
IsKeyed [] = Unit
IsKeyed ((k, s) ∷ m) = (s.key ≡ k) × IsKeyed m

-- Of two versions of a secret, the later one; ours, if they are equally old.
abbrev pub latest : Option Secret → Option Secret → Option Secret
latest mine none = mine
latest none (some t) = some t
latest (some s) (some t) = if ltb s.modified t.modified then some t else some s

-- Our version, if the peer lacks the secret or has an older version.
abbrev pub outgoing : Option Secret → Option Secret → Option Secret
outgoing none theirs = none
outgoing (some s) none = some s
outgoing (some s) (some t) = if ltb t.modified s.modified then some s else none

get-sync_entry :
    (s : Secret) (db : Entries) (ks : Map Str Bool) (j : Str)
    → GoMap.get j (sync_entry s (db, ks)).0
      ≡ (if s.key == j then latest (GoMap.get j db) (some s) else GoMap.get j db)
unfolding sync_entry
get-sync_entry s db ks j = ground (arith, get-put s.key j s db, str_beq_iff s.key j)

get-sync_loop :
    (other : Entries) (db : Entries) (ks : Map Str Bool) (j : Str)
    → IsMap other
    → IsKeyed other
    → GoMap.get j (sync_loop (GoMap.values other) (db, ks)).0
      ≡ latest (GoMap.get j db) (GoMap.get j other)
unfolding sync_loop GoMap.values GoMap.get
get-sync_loop [] db ks j m k = refl
get-sync_loop ((i, s) ∷ other) db ks j m k = ground (
  arith,
  get-sync_loop other (sync_entry s (db, ks)).0 (sync_entry s (db, ks)).1 j,
  get-sync_entry s db ks j,
  str_beq_iff s.key j,
  str_beq_iff i j,
)

-- What is left of a response key once the other side's version has been looked at.
abbrev still : Option Secret → Option Secret → Option Bool → Option Bool
still mine none x = x
still none (some t) x = none
still (some s) (some t) x = if ltb t.modified s.modified then x else none

response-sync_entry :
    (s : Secret) (db : Entries) (ks : Map Str Bool) (j : Str)
    → GoMap.get j (sync_entry s (db, ks)).1
      ≡ (if s.key == j then still (GoMap.get j db) (some s) (GoMap.get j ks) else GoMap.get j ks)
unfolding sync_entry
response-sync_entry s db ks j = ground (arith, get-remove s.key j ks, str_beq_iff s.key j)

response-sync_loop :
    (other : Entries) (db : Entries) (ks : Map Str Bool) (j : Str)
    → IsMap other
    → IsKeyed other
    → GoMap.get j (sync_loop (GoMap.values other) (db, ks)).1
      ≡ still (GoMap.get j db) (GoMap.get j other) (GoMap.get j ks)
unfolding sync_loop GoMap.values GoMap.get
response-sync_loop [] db ks j m k = refl
response-sync_loop ((i, s) ∷ other) db ks j m k = ground (
  arith,
  response-sync_loop other (sync_entry s (db, ks)).0 (sync_entry s (db, ks)).1 j,
  get-sync_entry s db ks j,
  response-sync_entry s db ks j,
  str_beq_iff s.key j,
  str_beq_iff i j,
)

abbrev marked : Option Secret → Option Bool
marked none = none
marked (some s) = some true

get-response_keys_of :
    (m : Entries) (j : Str) → GoMap.get j (response_keys_of m) ≡ marked (GoMap.get j m)
unfolding response_keys_of GoMap.get
get-response_keys_of [] j = refl
get-response_keys_of ((i, s) ∷ m) j =
    ground (arith, get-response_keys_of m j, get-put i j true (response_keys_of m))

abbrev gated : Option Bool → Option Secret → Option Secret
gated none x = none
gated (some b) x = x

get-copy_entry :
    (k j : Str) (o : Option Secret) (newer : Entries)
    → GoMap.get j (copy_entry k o newer)
      ≡ elim o [ none ↦ GoMap.get j newer | some s ↦ if k == j then some s else GoMap.get j newer ]
unfolding copy_entry
get-copy_entry k j none newer = refl
get-copy_entry k j (some s) newer = get-put k j s newer

get-collect :
    (ks : Map Str Bool) (db : Entries) (j : Str)
    → GoMap.get j (collect ks db) ≡ gated (GoMap.get j ks) (GoMap.get j db)
unfolding collect GoMap.get
get-collect [] db j = refl
get-collect ((k, b) ∷ ks) db j = ground (
  arith,
  get-collect ks db j,
  get-copy_entry k j (GoMap.get k db) (collect ks db),
  str_beq_iff k j,
)

-- The merge, key by key: whatever `save` reports, our database then holds the later version of each
-- secret, and the answer holds our version of exactly the secrets that the other side lacks or has
-- in an older version. The other database is a map whose entries stand under their own keys.
pub sync_with_database_lem :
    (io : Io) (other : Entries) (d : SecretDatabase) (j : Str)
    → IsMap other
    → IsKeyed other
    → let (d', newer, e) = sync_with_database io other d in
      (GoMap.get j d'.db ≡ latest (GoMap.get j d.db) (GoMap.get j other))
      × (GoMap.get j newer ≡ outgoing (GoMap.get j d.db) (GoMap.get j other))
unfolding sync_with_database save
sync_with_database_lem io other d j m k =
    let ks = response_keys_of d.db in
    let after = sync_loop (GoMap.values other) (d.db, ks) in
    (
      get-sync_loop other d.db ks j m k,
      ground (
        arith,
        get-collect after.1 after.0 j,
        get-sync_loop other d.db ks j m k,
        response-sync_loop other d.db ks j m k,
        get-response_keys_of d.db j,
      ),
    )
