-- ===== src/ApiKeys/Users.antt =====
-- `AddNew`, `Delete`, and the lookups of a key.
use mulch.Prelude.{
  ℕ, ◌+◌, ◌-◌, ◌≤◌, ◌≡◌, refl, Bool, false, Option, none, some, List, [], ◌∷◌, ◌++◌, arith, any,
  length, if◌then◌else◌, ◌==◌,
}
use mulch.Text.{Str, str_eq, str_beq_iff}
use mulch.Disk.{Io}
use mulch.ApiKeys.{
  ApiKey, ApiKeyDatabase, save, find_key, is_valid_key, get_by_comment, add_new, delete_key, delete,
  new_key, api_key_min_length,
}

-- How many keys have the comment.
unfoldable pub count_comment : Str → List ApiKey → ℕ
count_comment c [] = 0
count_comment c (k ∷ ks) = (if k.comment == c then 1 else 0) + count_comment c ks

-- A comment names at most one key.
pub record HasUniqueComments (d : ApiKeyDatabase) : Type 0 where
  pub unique : (c : Str) → count_comment c d.keys ≤ 1

count_comment-absent :
    (c : Str) (ks : List ApiKey) → any (λ k. k.comment == c) ks ≡ false → count_comment c ks ≡ 0
unfolding count_comment
count_comment-absent c [] h = refl
count_comment-absent c (k ∷ ks) h = ground (arith, count_comment-absent c ks)

count_comment-append :
    (c : Str) (ks : List ApiKey) (k : ApiKey)
    → count_comment c (ks ++ (k ∷ [])) ≡ count_comment c ks + (if k.comment == c then 1 else 0)
unfolding count_comment
count_comment-append c [] k = ground arith
count_comment-append c (x ∷ ks) k = ground (arith, count_comment-append c ks k)

count_comment-delete_key :
    (c j : Str) (ks : List ApiKey)
    → (count_comment j (delete_key c ks) ≤ count_comment j ks)
      × (count_comment c (delete_key c ks) ≡ count_comment c ks - 1)
unfolding count_comment delete_key
count_comment-delete_key c j [] = ground arith
count_comment-delete_key c j (k ∷ ks) = ground (arith, count_comment-delete_key c j ks)

find_key-append :
    (p : ApiKey → Bool) (ks : List ApiKey) (k : ApiKey)
    → any p ks ≡ false
    → find_key p (ks ++ (k ∷ [])) ≡ (if p k then some k else none)
unfolding find_key
find_key-append p [] k h = refl
find_key-append p (x ∷ ks) k h = ground (arith, find_key-append p ks k)

find_key-none :
    (c : Str) (ks : List ApiKey) → count_comment c ks ≡ 0 → find_key (λ k. k.comment == c) ks ≡ none
unfolding find_key count_comment
find_key-none c [] h = refl
find_key-none c (k ∷ ks) h = ground (arith, find_key-none c ks)

-- `AddNew` keeps the comments unique, whatever it reports.
add_new-HasUniqueComments :
    (io : Io) (fresh : ℕ) (pair : Option (Str × Str)) (secret comment : Str) (d : ApiKeyDatabase)
    → HasUniqueComments d
    → HasUniqueComments (add_new io fresh pair secret comment d).0
unfolding add_new save
add_new-HasUniqueComments io fresh none secret comment d u = ground arith
add_new-HasUniqueComments io fresh (some (priv, public)) secret comment d u = record {
  unique = λ c. ground (
    arith,
    u.unique c,
    count_comment-absent comment d.keys,
    count_comment-append c d.keys (new_key fresh priv public secret comment),
    str_beq_iff comment c,
  );
}

-- After a `Delete`, whatever it reports, no key has the comment, provided that comments were unique.
get_by_comment-delete :
    (io : Io) (comment : Str) (d : ApiKeyDatabase)
    → HasUniqueComments d
    → get_by_comment comment (delete io comment d).0 ≡ none
unfolding delete save get_by_comment
get_by_comment-delete io comment d u = ground (
  arith,
  u.unique comment,
  count_comment-delete_key comment comment d.keys,
  count_comment-absent comment d.keys,
  find_key-none comment d.keys,
  find_key-none comment (delete_key comment d.keys),
)

-- A key that `AddNew` adds without an error is found by its comment and, if the secret drawn is long
-- enough and was not in use, accepted as the key of a request.
get_by_comment-add_new :
    (io : Io) (fresh : ℕ) (priv public secret comment : Str) (d : ApiKeyDatabase)
    → (add_new io fresh (some (priv, public)) secret comment d).1 ≡ none
    → any (λ k. k.key == secret) d.keys ≡ false
    → api_key_min_length ≤ length secret
    → let d' = (add_new io fresh (some (priv, public)) secret comment d).0 in
      (get_by_comment comment d' ≡ some (new_key fresh priv public secret comment))
      × (is_valid_key secret d' ≡ some (new_key fresh priv public secret comment))
unfolding add_new save get_by_comment is_valid_key
get_by_comment-add_new io fresh priv public secret comment d h unused long =
    let new = new_key fresh priv public secret comment in
    ground (
      arith,
      find_key-append (λ k. k.comment == comment) d.keys new,
      find_key-append (λ k. k.key == secret) d.keys new,
      str_beq_iff comment comment,
      str_beq_iff secret secret,
    )
