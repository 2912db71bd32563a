-- ===== src/ApiKeys/Access.antt =====
-- Rights: what adding and removing one does to `IsAllowed`, and a text that stops the server.
use mulch.Prelude.{
  All, ◌==◌, ℕ, ◌≡◌, ◌≢◌, refl, ap, ◌∙◌, Bool, true, false, Option, some, List, [], ◌∷◌, arith, any,
  panic,
}
use mulch.Text.{Str, lit, str_eq}
use mulch.Text.Words.{is_space, split, to_upper, join}
use mulch.Text.Split.{Lacks, NoSpace, split-join, trim_space-NoSpace}
use mulch.ApiKeys.Rights.{is_method}
use mulch.ApiKeys.{
  Right, ApiKey, clean_right, check_right_path, parse_right, add_new_right, remove_right,
  is_allowed,
}

module _ (glob : Str → Str → Bool) (method path : Str) (req : Option (Str → Str)) where
  -- Taking the only right away from a key lifts every restriction.
  is_allowed-remove_last :
      (s : Str) (r : Right) (key key' : ApiKey)
      → key.rights ≡ r ∷ []
      → remove_right s key ≡ some key'
      → is_allowed glob method path req key' ≡ true
  unfolding remove_right is_allowed
  is_allowed-remove_last s r key key' one removed = ground arith

-- The methods of rights
abbrev pub methods : List Str
methods =
    lit "GET" ∷ lit "POST" ∷ lit "PUT" ∷ lit "DELETE" ∷ lit "SSH" ∷ lit "CREATE" ∷ lit "*" ∷ []

is_method-any : (m : Str) → is_method m ≡ any (λ x. x == m) methods
unfolding is_method
is_method-any m = refl

NoSpace-Lacks : (w : Str) → NoSpace w → All (λ c. c ≢ b' ') w
NoSpace-Lacks [] h = tt
NoSpace-Lacks (c ∷ w) h = (ground (arith, h.0), NoSpace-Lacks w h.1)

-- Once the white space is made regular, a text of a method, a path and any headers is split into them.
right_parts :
    (s m p : Str) (headers : List Str)
    → clean_right s ≡ join b' ' (m ∷ p ∷ headers)
    → NoSpace m
    → NoSpace p
    → All (Lacks b' ') headers
    → split b' ' (clean_right s) ≡ m ∷ p ∷ headers
right_parts s m p headers e hm hp hh =
    ap (split b' ') e
    ∙ split-join b' ' m (p ∷ headers) (NoSpace-Lacks m hm, (NoSpace-Lacks p hp, hh))

check_right_path-byte : (c : ℕ) → c ≢ b'/' → check_right_path (c ∷ []) ≡ panic
unfolding check_right_path
check_right_path-byte c ne = ground arith

-- Whatever the spacing, the method, in any case, and the headers are: a right of a known method whose path is one byte, neither a slash nor white space, makes `AddNewRight` panic, for any key.
pub add_new_right-panic :
    (s m : Str) (c : ℕ) (headers : List Str) (key : ApiKey)
    → clean_right s ≡ join b' ' (m ∷ (c ∷ []) ∷ headers)
    → NoSpace m
    → All (Lacks b' ') headers
    → any (λ x. x == to_upper m) methods ≡ true
    → is_space c ≡ false
    → c ≢ b'/'
    → add_new_right s key ≡ panic
unfolding add_new_right parse_right
add_new_right-panic s m c headers key e hm hh known h ne =
    rw
      (
        right_parts s m (c ∷ []) headers e hm (h, tt) hh,
        trim_space-NoSpace m hm,
        trim_space-NoSpace (c ∷ []) (h, tt),
        is_method-any (to_upper m),
        known,
        check_right_path-byte c ne,
      )
      refl
