-- ===== src/ApiKeys/Tests.antt =====
-- Runs of the key database on small examples, and the theorems about it at those examples.
use mulch.Prelude.{any, true, zero, suc, ◌≡◌, ◌∷◌, [], refl, some, arith, panic, ℕ, Bool, ◌==◌}
use mulch.Text.{Str, lit, str_eq, str_beq}
use mulch.Text.Words.{trim_space, trim_left, trim_right, to_upper, join}
use mulch.ApiKeys.{Fingerprint, ApiKey, add_new_right, remove_right, drop_right}
use mulch.ApiKeys.Rights.{Right, clean_right, collapse, right_string}
use mulch.ApiKeys.Access.{add_new_right-panic, methods}

abbrev repeated : ℕ → Str
repeated zero = []
repeated (suc n) = b'k' ∷ repeated n

abbrev allowed_once : Fingerprint
allowed_once = record { vm_name = lit "web"; fingerprint = lit "SHA256:a"; added_at = 1 }

abbrev asked : Fingerprint
asked = record { vm_name = lit "db"; fingerprint = lit "SHA256:a"; added_at = 0 }

abbrev logs_right : Right
logs_right = record { method = lit "GET"; path = lit "/log"; headers = [] }

abbrev alice : ApiKey
alice = record {
  address = 1;
  comment = lit "alice";
  key = lit "secret";
  ssh_private = [];
  ssh_public = [];
  rights = logs_right ∷ [];
  fingerprints = allowed_once ∷ [];
}

-- Globs without wildcards.
abbrev exactly : Str → Str → Bool
exactly pattern text = pattern == text

abbrev vms_right : Right
vms_right = record {
  method = lit "POST";
  path = lit "/vm";
  headers = (lit "action", lit "start") ∷ [];
}

abbrev alice_with_vms : ApiKey
alice_with_vms = record alice { rights = logs_right ∷ vms_right ∷ [] }

abbrev alice_without_rights : ApiKey
alice_without_rights = record alice { rights = [] }

remove_logs : remove_right (lit "GET  /log") alice ≡ some alice_without_rights
unfolding remove_right drop_right clean_right collapse trim_space trim_left trim_right right_string
    str_beq
remove_logs = refl

-- A right with a header, in lower case and with more spaces than one
short_path : clean_right (lit " post   * X=1") ≡ join b' ' (lit "post" ∷ lit "*" ∷ lit "X=1" ∷ [])
unfolding clean_right collapse trim_space trim_left trim_right join
short_path = refl

known_method : any (λ x. x == to_upper (lit "post")) methods ≡ true
unfolding to_upper str_beq
known_method = refl

add_new_right-panic_example : add_new_right (lit " post   * X=1") alice ≡ panic
add_new_right-panic_example =
    add_new_right-panic (lit " post   * X=1") (lit "post") b'*' (lit "X=1" ∷ []) alice short_path
      (refl, (refl, (refl, (refl, tt)))) ((ground arith, (ground arith, (ground arith, tt))), tt)
      known_method refl (ground arith)
