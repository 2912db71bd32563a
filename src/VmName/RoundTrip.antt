-- ===== src/VmName/RoundTrip.antt =====
-- `ParseVMName` after `ID`, and what follows for the keys of the databases.
use mulch.Prelude.{
  ◌≡◌, refl, ap, subst, true, [], ◌∷◌, ◌++◌, append-nil, arith, eqb, ok, Bool-cases, inl, inr,
}
use mulch.Text.{Str, lit}
use mulch.Text.Words.{is_valid_name}
use mulch.Text.Decimal.{itoa, itoa-digits, atoi-itoa}
use mulch.VmName.{VmName, id, span_word, parse_vm_name, IsVmName}

span_word-append :
    (w s : Str) → is_valid_name w ≡ true → span_word s ≡ ([], s) → span_word (w ++ s) ≡ (w, s)
unfolding span_word is_valid_name
span_word-append [] s h e = e
span_word-append (c ∷ w) s h e = ground (arith, span_word-append w s)

span_word-word : (w : Str) → is_valid_name w ≡ true → span_word w ≡ (w, [])
span_word-word w h =
    subst (λ t. span_word t ≡ (w, [])) (append-nil w)
      (span_word-append w [] h (unfold span_word in refl))

-- Reading back the id of a virtual machine gives its name and its revision.
pub parse_vm_name-id : (n : VmName) → IsVmName n → parse_vm_name (id n) ≡ ok n
unfolding id parse_vm_name
parse_vm_name-id n v = elim (Bool-cases (eqb n.revision 0)) [
  | inl e ↦ rw e (ground (arith, span_word-word n.name v.valid, v.some_char))
  | inr e ↦ rw e (
      ground (
        arith,
        span_word-append n.name (lit "-r" ++ itoa n.revision) v.valid refl,
        v.some_char,
        itoa-digits n.revision,
        atoi-itoa n.revision v.small,
      ))
]

-- Two virtual machines with the same id have the same name and the same revision.
pub id-injective : (m n : VmName) → IsVmName m → IsVmName n → id m ≡ id n → m ≡ n
id-injective m n v w e = cc (ap parse_vm_name e, parse_vm_name-id m v, parse_vm_name-id n w)
