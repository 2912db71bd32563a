-- ===== src/ApiKeys.antt =====
-- cmd/mulchd/server/api_keys.go: the keys of the API and their database. A key is a shared object:
-- `address` stands for its pointer, and a method that changes a key writes it back where the
-- database holds that pointer. Methods return the new state and the error (`none` is nil).
mod Rights
pub mod Access
pub mod Users
pub mod Trust
mod Tests
pub use Rights.{Right, RightError}
unfoldable pub use Rights.{
  parse_right, check_right_path, right_string, header_matches, right_matches, clean_right,
}
use mulch.Prelude.{
  ℕ, Bool, true, false, not, ◌&&◌, ◌||◌, Option, none, some, List, [], ◌∷◌, ◌++◌, map, eqb, ltb,
  length, any, if◌then◌else◌, ◌==◌, Outcome, ok, err, panic,
}
use mulch.Text.{Str, str_eq}
use mulch.Disk.{Io, write_file, succeeded}

pub record Fingerprint : Type 0 where
  pub vm_name : Str
  pub fingerprint : Str
  pub added_at : ℕ

pub record ApiKey : Type 0 where
  pub address : ℕ
  pub comment : Str
  pub key : Str
  pub ssh_private : Str
  pub ssh_public : Str
  pub rights : List Right
  pub fingerprints : List Fingerprint

pub record ApiKeyDatabase : Type 0 where
  pub keys : List ApiKey
  pub file : Option (List ApiKey)

pub data KeyError : Type 0 where
  duplicated_comment cannot_make_ssh_key cannot_write key_not_found : KeyError
  already_trusted fingerprint_not_found no_fingerprints right_not_found : KeyError

abbrev pub api_key_min_length : ℕ
api_key_min_length = 64

-- `save`
unfoldable pub save : Io → ApiKeyDatabase → ApiKeyDatabase × Option KeyError
save io d = (
  record d { file = write_file io d.keys d.file },
  if succeeded io then none else some cannot_write,
)

unfoldable pub find_key : (ApiKey → Bool) → List ApiKey → Option ApiKey
find_key p [] = none
find_key p (k ∷ ks) = if p k then some k else find_key p ks

-- `IsValidKey`
unfoldable pub is_valid_key : Str → ApiKeyDatabase → Option ApiKey
is_valid_key key d =
    if ltb (length key) api_key_min_length then none else find_key (λ k. k.key == key) d.keys

-- `GetByComment`
unfoldable pub get_by_comment : Str → ApiKeyDatabase → Option ApiKey
get_by_comment comment d = find_key (λ k. k.comment == comment) d.keys

abbrev pub new_key : ℕ → Str → Str → Str → Str → ApiKey
new_key fresh priv public secret comment = record {
  address = fresh;
  comment = comment;
  key = secret;
  ssh_private = priv;
  ssh_public = public;
  rights = [];
  fingerprints = [];
}

-- `AddNew`: `fresh` is the pointer of the new key, `pair` the SSH key pair or its error, and
-- `secret` what `genKey` draws.
unfoldable pub add_new :
    Io → ℕ → Option (Str × Str) → Str → Str → ApiKeyDatabase → ApiKeyDatabase × Option KeyError
add_new io fresh none secret comment d =
    if any (λ k. k.comment == comment) d.keys
    then (d, some duplicated_comment)
    else (d, some cannot_make_ssh_key)
add_new io fresh (some (priv, public)) secret comment d =
    if any (λ k. k.comment == comment) d.keys
    then (d, some duplicated_comment)
    else save io (record d { keys = d.keys ++ (new_key fresh priv public secret comment ∷ []) })

-- The first key with the comment is taken out.
unfoldable pub delete_key : Str → List ApiKey → List ApiKey
delete_key comment [] = []
delete_key comment (k ∷ ks) =
    let rest = delete_key comment ks in if k.comment == comment then ks else k ∷ rest

-- `Delete`
unfoldable pub delete : Io → Str → ApiKeyDatabase → ApiKeyDatabase × Option KeyError
unfolding delete_key
delete io comment d =
    if any (λ k. k.comment == comment) d.keys
    then save io (record d { keys = delete_key comment d.keys })
    else (d, some key_not_found)

-- `keyExists`: by the pointer
abbrev pub key_exists : ApiKey → ApiKeyDatabase → Bool
key_exists key d = any (λ k. eqb k.address key.address) d.keys

-- The object that the pointer leads to has changed.
unfoldable pub store : ApiKey → List ApiKey → List ApiKey
store key [] = []
store key (k ∷ ks) = (if eqb k.address key.address then key else k) ∷ store key ks

abbrev pub same_fingerprint : Fingerprint → Fingerprint → Bool
same_fingerprint v fp = v.vm_name == fp.vm_name && v.fingerprint == fp.fingerprint

-- `IsTrustedFingerprint`
abbrev pub is_trusted_fingerprint : Fingerprint → ApiKey → Bool
is_trusted_fingerprint fp key = any (λ v. same_fingerprint v fp) key.fingerprints

-- `IsTrustedVM`
abbrev pub is_trusted_vm : Str → ApiKey → Bool
is_trusted_vm vm key = any (λ v. v.vm_name == vm) key.fingerprints

-- A key, the database, and the error.
abbrev pub OnKey : Type 0
OnKey = ApiKey × ApiKeyDatabase × Option KeyError

save_key : Io → ApiKey → ApiKeyDatabase → OnKey
unfolding save store
save_key io key d = let (d', e) = save io (record d { keys = store key d.keys }) in (key, d', e)

-- `AllowSSHFingerprint`
unfoldable pub allow_ssh_fingerprint : Io → ℕ → ApiKey → Fingerprint → ApiKeyDatabase → OnKey
unfolding save_key
allow_ssh_fingerprint io now key fp d =
    if not (key_exists key d)
    then (key, d, some key_not_found)
    else if is_trusted_fingerprint fp key
    then (key, d, some already_trusted)
    else save_key io
        (record key { fingerprints = key.fingerprints ++ (record fp { added_at = now } ∷ []) }) d

unfoldable pub remove_first : Fingerprint → List Fingerprint → List Fingerprint
remove_first fp [] = []
remove_first fp (f ∷ fs) =
    let rest = remove_first fp fs in if same_fingerprint f fp then fs else f ∷ rest

-- `RemoveSSHFingerprint`
unfoldable pub remove_ssh_fingerprint : Io → ApiKey → Fingerprint → ApiKeyDatabase → OnKey
unfolding save_key remove_first
remove_ssh_fingerprint io key fp d =
    if not (key_exists key d)
    then (key, d, some key_not_found)
    else if is_trusted_fingerprint fp key
    then save_key io (record key { fingerprints = remove_first fp key.fingerprints }) d
    else (key, d, some fingerprint_not_found)

unfoldable pub without_vm : Str → List Fingerprint → List Fingerprint
without_vm vm [] = []
without_vm vm (f ∷ fs) = let rest = without_vm vm fs in if f.vm_name == vm then rest else f ∷ rest

-- `RemoveAllSSHFingerprint`, which does not look whether the database holds the key
unfoldable pub remove_all_ssh_fingerprint : Io → ApiKey → Str → ApiKeyDatabase → OnKey
unfolding save_key without_vm
remove_all_ssh_fingerprint io key vm d =
    if is_trusted_vm vm key
    then save_key io (record key { fingerprints = without_vm vm key.fingerprints }) d
    else (key, d, some no_fingerprints)

-- `AddNewRight`
add_parsed : ApiKey → Outcome RightError Right → Outcome RightError ApiKey
add_parsed key (err e) = err e
add_parsed key panic = panic
add_parsed key (ok r) =
    if any (λ x. right_string x == right_string r) key.rights
    then err RightError.duplicated_right
    else ok (record key { rights = key.rights ++ (r ∷ []) })

unfoldable pub add_new_right : Str → ApiKey → Outcome RightError ApiKey
unfolding add_parsed
add_new_right s key = add_parsed key (parse_right s)

unfoldable pub drop_right : Str → List Right → List Right
drop_right s [] = []
drop_right s (r ∷ rs) = let rest = drop_right s rs in if right_string r == s then rs else r ∷ rest

-- `RemoveRight`: the text is only cleaned, not parsed; `none` is the error.
unfoldable pub remove_right : Str → ApiKey → Option ApiKey
unfolding drop_right
remove_right s key =
    let text = clean_right s in
    if any (λ x. right_string x == text) key.rights
    then some (record key { rights = drop_right text key.rights })
    else none

-- `IsAllowed`, over `glob.Glob`: a key without rights is not restricted.
unfoldable pub is_allowed : (Str → Str → Bool) → Str → Str → Option (Str → Str) → ApiKey → Bool
is_allowed glob method path req key = elim key.rights [
  | [] ↦ true
  | r ∷ rs ↦ any (right_matches glob method path req) (r ∷ rs)
]
