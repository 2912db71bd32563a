-- ===== src/ApiKeys/Trust.antt =====
-- Which SSH keys a virtual machine may be lent: fingerprints allowed and removed.
use mulch.Prelude.{
  ℕ, ◌+◌, ◌≤◌, ◌≡◌, refl, Bool, false, ◌||◌, none, List, [], ◌∷◌, ◌++◌, arith, any, if◌then◌else◌,
  ◌==◌,
}
use mulch.Text.{Str, str_eq, str_beq_iff}
use mulch.Disk.{Io}
use mulch.ApiKeys.{
  Fingerprint, ApiKey, ApiKeyDatabase, same_fingerprint, is_trusted_fingerprint, is_trusted_vm,
  allow_ssh_fingerprint, without_vm, remove_all_ssh_fingerprint,
}

module _ {ℓ} {A : Type ℓ} (p : A → Bool) where
  any-snoc : (xs : List A) (y : A) → any p (xs ++ (y ∷ [])) ≡ (any p xs || p y)
  any-snoc [] y = ground arith
  any-snoc (x ∷ xs) y = ground (arith, any-snoc xs y)

-- How often the fingerprint is listed for the machine.
unfoldable pub count_fingerprint : Fingerprint → List Fingerprint → ℕ
count_fingerprint fp [] = 0
count_fingerprint fp (f ∷ fs) = (if same_fingerprint f fp then 1 else 0) + count_fingerprint fp fs

abbrev pub HasUniqueFingerprints : ApiKey → Type 0
HasUniqueFingerprints key = (fp : Fingerprint) → count_fingerprint fp key.fingerprints ≤ 1

count_fingerprint-absent :
    (fp : Fingerprint) (fs : List Fingerprint)
    → any (λ v. same_fingerprint v fp) fs ≡ false
    → count_fingerprint fp fs ≡ 0
unfolding count_fingerprint
count_fingerprint-absent fp [] h = refl
count_fingerprint-absent fp (f ∷ fs) h = ground (arith, count_fingerprint-absent fp fs)

count_fingerprint-snoc :
    (fp f : Fingerprint) (fs : List Fingerprint)
    → count_fingerprint fp (fs ++ (f ∷ []))
      ≡ count_fingerprint fp fs + (if same_fingerprint f fp then 1 else 0)
unfolding count_fingerprint
count_fingerprint-snoc fp f [] = ground arith
count_fingerprint-snoc fp f (x ∷ fs) = ground (arith, count_fingerprint-snoc fp f fs)

-- A fingerprint that is allowed is trusted afterwards, the others are as they were, and no
-- fingerprint is listed twice for a machine if none was; the request's key is in the database.
allow_ssh_fingerprint_lem :
    (io : Io) (now : ℕ) (key : ApiKey) (fp x : Fingerprint) (d : ApiKeyDatabase)
    → (allow_ssh_fingerprint io now key fp d).2 ≡ none
    → HasUniqueFingerprints key
    → let key' = (allow_ssh_fingerprint io now key fp d).0 in
      (is_trusted_fingerprint x key' ≡ (is_trusted_fingerprint x key || same_fingerprint fp x))
      × (count_fingerprint x key'.fingerprints ≤ 1)
unfolding allow_ssh_fingerprint
allow_ssh_fingerprint_lem io now key fp x d h u =
    let added : Fingerprint = record fp { added_at = now } in
    ground (
      arith,
      any-snoc (λ v. same_fingerprint v x) key.fingerprints added,
      count_fingerprint-snoc x added key.fingerprints,
      count_fingerprint-absent fp key.fingerprints,
      count_fingerprint-absent x key.fingerprints,
      u x,
      u fp,
      str_beq_iff fp.vm_name x.vm_name,
      str_beq_iff fp.fingerprint x.fingerprint,
    )

is_trusted_vm-without_vm :
    (vm : Str) (fs : List Fingerprint) → any (λ v. v.vm_name == vm) (without_vm vm fs) ≡ false
unfolding without_vm
is_trusted_vm-without_vm vm [] = refl
is_trusted_vm-without_vm vm (f ∷ fs) = ground (arith, is_trusted_vm-without_vm vm fs)

is_trusted-without_vm :
    (vm : Str) (x : Fingerprint) (fs : List Fingerprint)
    → (x.vm_name == vm) ≡ false
    → any (λ v. same_fingerprint v x) (without_vm vm fs) ≡ any (λ v. same_fingerprint v x) fs
unfolding without_vm
is_trusted-without_vm vm x [] h = refl
is_trusted-without_vm vm x (f ∷ fs) h = ground (
  arith,
  is_trusted-without_vm vm x fs,
  str_beq_iff f.vm_name vm,
  str_beq_iff f.vm_name x.vm_name,
  str_beq_iff x.vm_name vm,
)

-- Whatever `RemoveAllSSHFingerprint` reports, the key then trusts nothing on the machine, and on
-- every other machine what it trusted before.
remove_all_ssh_fingerprint_lem :
    (io : Io) (key : ApiKey) (vm : Str) (x : Fingerprint) (d : ApiKeyDatabase)
    → (x.vm_name == vm) ≡ false
    → let key' = (remove_all_ssh_fingerprint io key vm d).0 in
      (is_trusted_vm vm key' ≡ false)
      × (is_trusted_fingerprint x key' ≡ is_trusted_fingerprint x key)
unfolding remove_all_ssh_fingerprint
remove_all_ssh_fingerprint_lem io key vm x d h = ground (
  arith,
  is_trusted_vm-without_vm vm key.fingerprints,
  is_trusted-without_vm vm x key.fingerprints,
)
