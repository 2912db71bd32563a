-- ===== src/VmName.antt =====
-- cmd/mulchd/server/vm_name.go: the name and the revision of a virtual machine, and its id.
pub mod RoundTrip
mod Tests
use mulch.Prelude.{
  ℕ, ◌≤◌, ◌≡◌, Bool, true, false, ◌&&◌, Option, none, some, List, [], ◌∷◌, ◌++◌, eqb, all,
  if◌then◌else◌, ◌==◌, Outcome, ok, err,
}
use mulch.Text.{Str, lit, str_eq}
use mulch.Text.Words.{is_word_char, is_digit, is_nil, is_valid_name}
use mulch.Text.Decimal.{itoa, atoi, max_int}

pub record VmName : Type 0 where
  pub name : Str
  pub revision : ℕ

pub data NameError : Type 0 where
  invalid_name invalid_revision : NameError

-- `ID`: revision 0 is not written.
unfoldable pub id : VmName → Str
id n = if eqb n.revision 0 then n.name else n.name ++ (lit "-r" ++ itoa n.revision)

-- The longest prefix of word characters, and the rest.
unfoldable pub span_word : Str → Str × Str
span_word [] = ([], [])
span_word (c ∷ s) =
    let (w, rest) = span_word s in if is_word_char c then (c ∷ w, rest) else ([], c ∷ s)

with_revision : Str → Option ℕ → Outcome NameError VmName
with_revision name none = err invalid_revision
with_revision name (some n) = ok (record { name = name; revision = n })

parse_revision : Str → Str → Outcome NameError VmName
parse_revision name [] = ok (record { name = name; revision = 0 })
parse_revision name (a ∷ []) = err invalid_name
parse_revision name (a ∷ b ∷ digits) =
    if eqb a b'-' && eqb b b'r' && all is_digit digits
    then (if is_nil digits then err invalid_name else with_revision name (atoi digits))
    else err invalid_name

-- `ParseVMName`: the pattern `^([A-Za-z0-9_]+)(-r([0-9]+))?$`, whose first group ends at the first
-- byte that is no word character.
unfoldable pub parse_vm_name : Str → Outcome NameError VmName
unfolding span_word parse_revision with_revision
parse_vm_name s =
    let (name, rest) = span_word s in
    if is_nil name then err invalid_name else parse_revision name rest

-- `LibvirtDomainName`, `prefix` being the configuration's VMPrefix
unfoldable pub libvirt_domain_name : Str → VmName → Str
libvirt_domain_name prefix n = prefix ++ id n

-- The names that `ParseVMName` gives: a revision fits an `int`.
pub record IsVmName (n : VmName) : Type 0 where
  pub valid : is_valid_name n.name ≡ true
  pub some_char : is_nil n.name ≡ false
  pub small : n.revision ≤ max_int
