-- ===== src/Config/Redirects.antt =====
-- Where the redirections of a configuration lead.
use mulch.Prelude.{
  ℕ, ◌≡◌, refl, sym, ◌∙◌, ap, subst, inl, inr, eqb, true, Option, none, some, List, [], ◌∷◌, any,
  arith, All, Bool-cases, ◌==◌, ok,
}
use mulch.Text.{Str, str_eq}
use mulch.Text.Decimal.{ℤ, pos, negsuc, atoi_int}
use mulch.Text.Words.{trim_space}
use mulch.Domain.{Domain}
use mulch.VmPort.Comment.{split_pair}
use mulch.VmPort.Bounds.{bind-ok, ok-injective}
use mulch.Config.{ConfigError, TomlVmConfig}
use mulch.Config.Domains.{
  domain_of, domains_of, with_port, make_domain, redirect_of, redirects_of, redirect_code,
  make_redirect, redirect_domain, is_redirect_code, host_name,
}

-- A domain of the machine itself: no redirection
abbrev pub IsOwn : Domain → Type 0
IsOwn d = (d.redirect_code ≡ 0) × (d.redirect_to ≡ [])

-- A redirection to one of `own`, by a code of HTTP.
abbrev pub IsRedirect : List Str → Domain → Type 0
IsRedirect own d =
    (any (eqb d.redirect_code) (301 ∷ 302 ∷ 307 ∷ 308 ∷ []) ≡ true)
    × (any (λ o. o == d.redirect_to) own ≡ true)

make_domain-IsOwn : (t : TomlVmConfig) (name : Str) (port : ℤ) → IsOwn (make_domain t name port)
unfolding make_domain
make_domain-IsOwn t name port = (refl, refl)

with_port-ok :
    (t : TomlVmConfig) (name : Str) (o : Option ℤ) (d : Domain)
    → with_port t name o ≡ ok d
    → IsOwn d
unfolding with_port
with_port-ok t name none d h = absurd (ground (arith, h))
with_port-ok t name (some port) d h =
    subst IsOwn (ok-injective {E = ConfigError} (make_domain t name port) d h)
      (make_domain-IsOwn t name port)

domain_of-ok :
    (t : TomlVmConfig) (parts : List Str) (d : Domain) → domain_of t parts ≡ ok d → IsOwn d
unfolding domain_of
domain_of-ok t [] d h = absurd (ground (arith, h))
domain_of-ok t (name ∷ []) d h =
    subst IsOwn (ok-injective {E = ConfigError} (make_domain t name (pos 80)) d h)
      (make_domain-IsOwn t name (pos 80))
domain_of-ok t (name ∷ port ∷ []) d h = with_port-ok t name (atoi_int (trim_space port)) d h
domain_of-ok t (name ∷ port ∷ x ∷ xs) d h = absurd (ground (arith, h))

pub domains_of-ok :
    (t : TomlVmConfig) (lines : List Str) (ds : List Domain)
    → domains_of t lines ≡ ok ds
    → All IsOwn ds
unfolding domains_of
domains_of-ok t [] ds h = subst (All IsOwn) (ok-injective {E = ConfigError} [] ds h) tt
domains_of-ok t (line ∷ lines) ds h =
    let first = bind-ok (domain_of t (split_pair b'-' b'>' line)) _ ds h in
    let second = bind-ok (domains_of t lines) _ ds first.2 in
    subst (All IsOwn) (ok-injective {E = ConfigError} (first.0 ∷ second.0) ds second.2) (
      domain_of-ok t (split_pair b'-' b'>' line) first.0 first.1,
      domains_of-ok t lines second.0 second.1,
    )

is_redirect_code-any :
    (n : ℕ) → is_redirect_code n ≡ true → any (eqb n) (301 ∷ 302 ∷ 307 ∷ 308 ∷ []) ≡ true
unfolding is_redirect_code
is_redirect_code-any n h = ground (arith, h)

redirect_code-ok : (o : Option ℤ) (n : ℕ) → redirect_code o ≡ ok n → is_redirect_code n ≡ true
unfolding redirect_code
redirect_code-ok none n h = absurd (ground (arith, h))
redirect_code-ok (some (negsuc k)) n h = absurd (ground (arith, h))
redirect_code-ok (some (pos k)) n h = elim (Bool-cases (is_redirect_code k)) [
  | inl e ↦
      ap is_redirect_code (sym (ok-injective {E = ConfigError} k n (ground (arith, h, e)))) ∙ e
  | inr e ↦ absurd (ground (arith, h, e))
]

make_redirect-ok :
    (own : List Str) (from dest : Str) (status : ℕ) (d : Domain)
    → is_redirect_code status ≡ true
    → make_redirect own from dest status ≡ ok d
    → IsRedirect own d
unfolding make_redirect redirect_domain
make_redirect-ok own from dest status d c h = elim (Bool-cases (any (λ o. o == dest) own)) [
  | inl e ↦
      subst (IsRedirect own)
        (ok-injective {E = ConfigError} (redirect_domain from dest status) d (ground (arith, h, e)))
        (is_redirect_code-any status c, e)
  | inr e ↦ absurd (ground (arith, h, e))
]

redirect_of-ok : (own line : List Str) (d : Domain) → redirect_of own line ≡ ok d → IsRedirect own d
unfolding redirect_of is_redirect_code
redirect_of-ok own [] d h = absurd (ground (arith, h))
redirect_of-ok own (from ∷ []) d h = absurd (ground (arith, h))
redirect_of-ok own (from ∷ dest ∷ []) d h =
    make_redirect-ok own (host_name from) (host_name dest) 302 d refl h
redirect_of-ok own (from ∷ dest ∷ code ∷ []) d h =
    let first = bind-ok (redirect_code (atoi_int code)) _ d h in
    make_redirect-ok own (host_name from) (host_name dest) first.0 d
      (redirect_code-ok (atoi_int code) first.0 first.1) first.2
redirect_of-ok own (from ∷ dest ∷ code ∷ x ∷ xs) d h = absurd (ground (arith, h))

pub redirects_of-ok :
    (own : List Str) (lines : List (List Str)) (ds : List Domain)
    → redirects_of own lines ≡ ok ds
    → All (IsRedirect own) ds
unfolding redirects_of
redirects_of-ok own [] ds h =
    subst (All (IsRedirect own)) (ok-injective {E = ConfigError} [] ds h) tt
redirects_of-ok own (line ∷ lines) ds h =
    let first = bind-ok (redirect_of own line) _ ds h in
    let second = bind-ok (redirects_of own lines) _ ds first.2 in
    subst (All (IsRedirect own)) (ok-injective {E = ConfigError} (first.0 ∷ second.0) ds second.2)
      (redirect_of-ok own line first.0 first.1, redirects_of-ok own lines second.0 second.1)
