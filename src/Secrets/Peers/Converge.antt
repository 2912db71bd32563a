-- ===== src/Secrets/Peers/Converge.antt =====
-- Two servers after one exchange.
use mulch.Prelude.{
  ap, sym, ◌∙◌, ◌≡◌, refl, Bool, true, Option, none, some, List, [], ◌∷◌, arith, Option-cases, inl,
  inr,
}
use mulch.GoMap
use mulch.GoMap.{Map}
use mulch.GoMap.Laws.{IsMap, put-IsMap}
use mulch.Text.{Str, str_eq, str_beq_iff}
use mulch.Disk.{Io, done}
use mulch.Secrets.{
  Secret, Entries, SecretDatabase, save, copy_entry, response_keys_of, sync_entry, sync_loop,
  collect, sync_with_database,
}
use mulch.Secrets.Sync.{IsKeyed, latest, outgoing, sync_with_database_lem}
use mulch.Secrets.Peers.{Peer, answered, sync_peer, serve_sync}

pub IsKeyed-get :
    (m : Entries) (j : Str) (s : Secret) → IsKeyed m → GoMap.get j m ≡ some s → s.key ≡ j
unfolding GoMap.get
IsKeyed-get [] j s k h = ground arith
IsKeyed-get ((i, t) ∷ m) j s k h = ground (arith, IsKeyed-get m j s, str_beq_iff i j)

pub put-IsKeyed :
    (k : Str) (s : Secret) (m : Entries) → s.key ≡ k → IsKeyed m → IsKeyed (GoMap.put k s m)
unfolding GoMap.put
put-IsKeyed k s [] e h = (e, tt)
put-IsKeyed k s ((i, t) ∷ m) e h = ground (arith, put-IsKeyed k s m)

copy_entry-IsMap : (k : Str) (o : Option Secret) (m : Entries) → IsMap m → IsMap (copy_entry k o m)
unfolding copy_entry
copy_entry-IsMap k none m h = h
copy_entry-IsMap k (some s) m h = put-IsMap k s m h

copy_entry-IsKeyed :
    (k : Str) (db m : Entries) → IsKeyed db → IsKeyed m → IsKeyed (copy_entry k (GoMap.get k db) m)
unfolding copy_entry
copy_entry-IsKeyed k db m kd h = elim (Option-cases (GoMap.get k db)) [
  | inl e ↦ rw e h
  | inr (s, e) ↦ rw e (put-IsKeyed k s m (IsKeyed-get db k s kd e) h)
]

collect-IsMap : (ks : Map Str Bool) (db : Entries) → IsMap (collect ks db)
unfolding collect
collect-IsMap [] db = tt
collect-IsMap ((k, b) ∷ ks) db =
    copy_entry-IsMap k (GoMap.get k db) (collect ks db) (collect-IsMap ks db)

collect-IsKeyed : (ks : Map Str Bool) (db : Entries) → IsKeyed db → IsKeyed (collect ks db)
unfolding collect
collect-IsKeyed [] db h = tt
collect-IsKeyed ((k, b) ∷ ks) db h =
    copy_entry-IsKeyed k db (collect ks db) h (collect-IsKeyed ks db h)

sync_entry-IsKeyed :
    (s : Secret) (st : Entries × Map Str Bool) → IsKeyed st.0 → IsKeyed (sync_entry s st).0
unfolding sync_entry
sync_entry-IsKeyed s (db, ks) h = ground (arith, put-IsKeyed s.key s db refl h)

sync_loop-IsKeyed :
    (l : List Secret) (st : Entries × Map Str Bool) → IsKeyed st.0 → IsKeyed (sync_loop l st).0
unfolding sync_loop
sync_loop-IsKeyed [] st h = h
sync_loop-IsKeyed (s ∷ l) st h = sync_loop-IsKeyed l (sync_entry s st) (sync_entry-IsKeyed s st h)

-- The answer of a merge is again a map whose entries stand under their own keys.
sync_with_database-IsKeyed :
    (io : Io) (other : Entries) (d : SecretDatabase)
    → IsKeyed d.db
    → let (d', newer, e) = sync_with_database io other d in IsMap newer × IsKeyed newer
unfolding sync_with_database save
sync_with_database-IsKeyed io other d h =
    let after = sync_loop (GoMap.values other) (d.db, response_keys_of d.db) in
    (
      collect-IsMap after.1 after.0,
      collect-IsKeyed after.1 after.0
          (sync_loop-IsKeyed (GoMap.values other) (d.db, response_keys_of d.db) h),
    )

-- Server `b` behind a working connection, its disk in order, as its peer sees it.
abbrev pub linked : Io → SecretDatabase → Peer
linked io b = record {
  name = [];
  sync_secrets = true;
  call = λ sent. (serve_sync done sent b).1;
  io = io;
}

latest_sym :
    (x y : Option Secret)
    → ((s t : Secret) → x ≡ some s → y ≡ some t → s.modified ≡ t.modified → s ≡ t)
    → latest x (outgoing y x) ≡ latest y x
latest_sym none none h = refl
latest_sym none (some t) h = refl
latest_sym (some s) none h = refl
latest_sym (some s) (some t) h = ground (arith, h s t refl refl)

serve_sync-done :
    (sent : Entries) (b : SecretDatabase)
    → serve_sync done sent b
      ≡ ((sync_with_database done sent b).0, some (sync_with_database done sent b).1)
unfolding serve_sync sync_with_database save
serve_sync-done sent b = refl

sync_peer-linked :
    (io : Io) (a b : SecretDatabase)
    → sync_peer (linked io b) a ≡ answered io (some (sync_with_database done a.db b).1) a
unfolding sync_peer
sync_peer-linked io a b =
    ap (λ (r : SecretDatabase × Option Entries). answered io r.1 a) (serve_sync-done a.db b)

-- After one exchange both servers hold the same version of every secret, the later of the two they
-- had, provided that two versions of one secret with the same date are the same. Both databases are
-- maps whose entries stand under their own keys, and `b` could save; whether `a` could save does
-- not matter.
pub sync_peer_converges :
    (io : Io) (a b : SecretDatabase) (j : Str)
    → IsMap a.db
    → IsKeyed a.db
    → IsKeyed b.db
    → ((s t : Secret)
        → GoMap.get j a.db ≡ some s
        → GoMap.get j b.db ≡ some t
        → s.modified ≡ t.modified
        → s ≡ t)
    → (GoMap.get j (sync_peer (linked io b) a).0.db ≡ GoMap.get j (serve_sync done a.db b).0.db)
      × (GoMap.get j (serve_sync done a.db b).0.db ≡ latest (GoMap.get j b.db) (GoMap.get j a.db))
unfolding answered
sync_peer_converges io a b j ma ka kb same =
    let newer = (sync_with_database done a.db b).1 in
    let ours = sync_with_database_lem done a.db b j ma ka in
    let kept = sync_with_database-IsKeyed done a.db b kb in
    let theirs = sync_with_database_lem io newer a j kept.0 kept.1 in
    let agreed = latest_sym (GoMap.get j a.db) (GoMap.get j b.db) same in
    let pulled : GoMap.get j (sync_peer (linked io b) a).0.db
        ≡ latest (GoMap.get j b.db) (GoMap.get j a.db) =
      rw sync_peer-linked (theirs.0 ∙ (rw ours.1 agreed)) in
    let served : GoMap.get j (serve_sync done a.db b).0.db
        ≡ latest (GoMap.get j b.db) (GoMap.get j a.db) =
      rw serve_sync-done ours.0 in
    (pulled ∙ sym served, served)
