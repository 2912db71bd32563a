-- ===== src/Secrets/Tests.antt =====
-- Runs of the secret database on small examples, and the theorems about it at those examples.
use mulch.Prelude.{◌≡◌, ◌<◌, ◌∷◌, [], refl, none, some, false, arith, ok, ℕ, Bool}
use mulch.GoMap
use mulch.GoMap.Laws.{IsMap}
use mulch.Text.{Str, lit, str_eq, str_beq}
use mulch.Text.Words.{
  is_valid_name, to_upper, split, join, trim_space, trim_left, trim_right, path_clean, clean_parts,
  clean_part,
}
use mulch.Disk.{Io}
use mulch.Secrets.{Secret, Entries, SecretDatabase, get, delete_low, sync_with_database}
use mulch.Secrets.Sync.{latest, outgoing, IsKeyed, sync_with_database_lem}
use mulch.Secrets.Tombstones.{delete_propagates}
use mulch.Secrets.Peers.{sync_peer, serve_sync}
use mulch.Secrets.Peers.Converge.{linked, sync_peer_converges}
use mulch.Secrets.CleanKey.{clean_key}
use mulch.Secrets.CleanKey.Accepts.{IsKey}
use mulch.Secrets.CleanKey.Slashes.{clean_key-slash_slash}
use mulch.Secrets.CleanKey.Sound.{IsKeyText, clean_key-IsKeyText}

abbrev version : Str → ℕ → Bool → Secret
version value date dead = record {
  key = lit "app/KEY";
  value = value;
  modified = date;
  author_key = lit "alice";
  deleted = dead;
}

abbrev other_secret : Secret
other_secret = record {
  key = lit "DB";
  value = lit "x";
  modified = 3;
  author_key = lit "bob";
  deleted = false;
}

abbrev our_entries : Entries
our_entries = (lit "app/KEY", version (lit "old") 1 false) ∷ (lit "DB", other_secret) ∷ []

abbrev ours : SecretDatabase
ours = record { db = our_entries; file = none }

abbrev their_entries : Entries
their_entries = (lit "app/KEY", version (lit "new") 5 false) ∷ []

abbrev theirs : SecretDatabase
theirs = record { db = their_entries; file = none }

our_entries-IsMap : IsMap our_entries
unfolding GoMap.get str_beq
our_entries-IsMap = (refl, (refl, tt))

our_entries-IsKeyed : IsKeyed our_entries
our_entries-IsKeyed = (refl, (refl, tt))

their_entries-IsMap : IsMap their_entries
unfolding GoMap.get
their_entries-IsMap = (refl, tt)

their_entries-IsKeyed : IsKeyed their_entries
their_entries-IsKeyed = (refl, tt)

find_key : GoMap.get (lit "app/KEY") our_entries ≡ some (version (lit "old") 1 false)
unfolding GoMap.get str_beq
find_key = refl

sync_with_database_example :
    let (d', newer, e) = sync_with_database Io.done their_entries ours in
    (GoMap.get (lit "DB") d'.db
      ≡ latest (GoMap.get (lit "DB") our_entries) (GoMap.get (lit "DB") their_entries))
    × (GoMap.get (lit "DB") newer
        ≡ outgoing (GoMap.get (lit "DB") our_entries) (GoMap.get (lit "DB") their_entries))
sync_with_database_example =
    sync_with_database_lem Io.done their_entries ours (lit "DB") their_entries-IsMap
      their_entries-IsKeyed

same_versions :
    (s t : Secret)
    → GoMap.get (lit "app/KEY") our_entries ≡ some s
    → GoMap.get (lit "app/KEY") their_entries ≡ some t
    → s.modified ≡ t.modified
    → s ≡ t
unfolding GoMap.get str_beq
same_versions s t p q e = ground arith

sync_peer_converges_example :
    (GoMap.get (lit "app/KEY") (sync_peer (linked Io.done theirs) ours).0.db
      ≡ GoMap.get (lit "app/KEY") (serve_sync Io.done our_entries theirs).0.db)
    × (GoMap.get (lit "app/KEY") (serve_sync Io.done our_entries theirs).0.db
        ≡ latest (GoMap.get (lit "app/KEY") their_entries) (GoMap.get (lit "app/KEY") our_entries))
sync_peer_converges_example =
    sync_peer_converges Io.done ours theirs (lit "app/KEY") our_entries-IsMap our_entries-IsKeyed
      their_entries-IsKeyed same_versions

delete_found_secret : (delete_low (lit "app/KEY") (lit "carol") 9 ours).1 ≡ none
unfolding delete_low GoMap.get str_beq
delete_found_secret = refl

older_version : (t : Secret) → GoMap.get (lit "app/KEY") their_entries ≡ some t → t.modified < 9
unfolding GoMap.get str_beq
older_version t e = ground arith

delete_propagates_example :
    get
      (lit "app/KEY")
      (serve_sync Io.write_failed (delete_low (lit "app/KEY") (lit "carol") 9 ours).0.db theirs).0
    ≡ none
delete_propagates_example =
    delete_propagates Io.write_failed (lit "app/KEY") (lit "carol") 9 ours theirs our_entries-IsMap
      our_entries-IsKeyed delete_found_secret older_version

two_parts : IsKey (lit "app") (lit "KEY" ∷ [])
unfolding is_valid_name to_upper
two_parts = (((refl, refl), ((refl, refl), tt)), refl)

clean_key_typed : clean_key (lit " /app/./KEY ") ≡ ok (lit "app/KEY")
unfolding clean_key trim_space trim_left trim_right path_clean clean_parts clean_part split join
    is_valid_name to_upper str_beq
clean_key_typed = refl

clean_key-IsKeyText_example : IsKeyText (lit "app/KEY")
clean_key-IsKeyText_example =
    clean_key-IsKeyText (lit " /app/./KEY ") (lit "app/KEY") clean_key_typed

clean_key-slash_slash_example : clean_key (lit "//app/KEY") ≡ ok (lit "/app/KEY")
unfolding join
clean_key-slash_slash_example = clean_key-slash_slash (lit "app") (lit "KEY" ∷ []) two_parts
