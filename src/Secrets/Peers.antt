-- ===== src/Secrets/Peers.antt =====
-- `Set`, `Delete`, `SyncPeers` and `SyncPeer` of secret_database.go, and the other side of the call,
-- SyncSecretsController of cmd/mulchd/controllers/secret.go. A call is represented by what the peer
-- answers to the entries sent; JSON, encryption and HTTP are part of it.
pub mod Converge
use mulch.Prelude.{ℕ, Bool, true, false, Option, none, some, List, [], ◌∷◌, if◌then◌else◌}
use mulch.Text.{Str}
use mulch.Disk.{Io}
use mulch.Secrets.{
  Entries, SecretDatabase, SecretError, save, set_low, delete_low, sync_with_database,
}

-- A peer of the configuration. `call` answers with the newer entries, or fails; `io` is how saving
-- our database turns out after the call.
pub record Peer : Type 0 where
  pub name : Str
  pub sync_secrets : Bool
  pub call : Entries → Option Entries
  pub io : Io

answered : Io → Option Entries → SecretDatabase → SecretDatabase × Option SecretError
answered io none d = (d, some SecretError.call_failed)
answered io (some newer) d = let (d', out, e) = sync_with_database io newer d in (d', e)

unfoldable pub sync_peer : Peer → SecretDatabase → SecretDatabase × Option SecretError
unfolding answered
sync_peer p d = answered p.io (p.call d.db) d

failed_peer : Str → Option SecretError → List Str → List Str
failed_peer name none errors = errors
failed_peer name (some e) errors = name ∷ errors

-- `SyncPeers`: every peer is called, whatever the others answer; the names of those that failed.
unfoldable pub sync_peers : List Peer → SecretDatabase → SecretDatabase × List Str
unfolding failed_peer
sync_peers [] d = (d, [])
sync_peers (p ∷ ps) d =
    let (d', e) = if p.sync_secrets then sync_peer p d else (d, none) in
    let (d'', errors) = sync_peers ps d' in (d'', failed_peer p.name e errors)

-- Once the change is saved, a failed synchronisation is only logged.
then_sync : List Peer → SecretDatabase × Option SecretError → SecretDatabase × Option SecretError
then_sync peers (d, none) = ((sync_peers peers d).0, none)
then_sync peers (d, some e) = (d, some e)

-- `Set`
unfoldable pub set :
    Io → List Peer → Str → Str → Str → ℕ → SecretDatabase → SecretDatabase × Option SecretError
unfolding then_sync
set io peers key value author now d = then_sync peers (save io (set_low key value author now d))

delete_saved :
    Io → List Peer → SecretDatabase × Option SecretError → SecretDatabase × Option SecretError
delete_saved io peers (d, none) = then_sync peers (save io d)
delete_saved io peers (d, some e) = (d, some e)

-- `Delete`
unfoldable pub delete :
    Io → List Peer → Str → Str → ℕ → SecretDatabase → SecretDatabase × Option SecretError
unfolding delete_saved then_sync
delete io peers key author now d = delete_saved io peers (delete_low key author now d)

reply : SecretDatabase × Entries × Option SecretError → SecretDatabase × Option Entries
reply (d, newer, none) = (d, some newer)
reply (d, newer, some e) = (d, none)

-- `SyncSecretsController`: an error of `save` is answered by status 500.
unfoldable pub serve_sync : Io → Entries → SecretDatabase → SecretDatabase × Option Entries
unfolding reply
serve_sync io sent d = reply (sync_with_database io sent d)
