-- ===== src/VmPort/Bounds.antt =====
-- What `NewVMPortArray` accepts.
use mulch.Prelude.{
  ℕ, ◌≤◌, ◌≡◌, refl, sym, ◌∙◌, ap, ◌⊎◌, inl, inr, true, false, Option, none, some, List, [], ◌∷◌,
  arith, Bool-cases, Outcome, ok, err, panic, ◌>>=◌,
}
use mulch.Text.{Str, lit, str_eq, str_beq_iff}
use mulch.Text.Words.{to_lower, split, starts_with}
use mulch.Text.Decimal.{ℤ, pos, negsuc, atoi_int}
use mulch.VmPort.{VmPort, Direction, is_import}
use mulch.VmPort.Comment.{is_valid_group_name}
use mulch.VmPort.Parse.{
  PortError, tcp_port, proxy_number, public_group, bounded, port_number, uint16, proxy_port_of,
  public_port_of, public_group_of, group_of, private_group_of,
}

-- A private port has a valid group, no public port and no proxy; a public one is exported, and has a
-- port from 1 to 65535.
abbrev pub IsGroup : Direction → Str → ℕ → ℕ → Type 0
IsGroup direction group public proxy =
    ((is_valid_group_name group ≡ true) × (public ≡ 0) × (proxy ≡ 0))
    ⊎ ((group ≡ public_group) × (is_import direction ≡ false) × (1 ≤ public) × (public ≤ 65535))

pub record IsPort (p : VmPort) : Type 0 where
  pub low : 1 ≤ p.port
  pub high : p.port ≤ 65535
  pub tcp : p.protocol ≡ 0
  pub proxy : p.proxy_port ≤ 65535
  pub grouped : IsGroup p.direction p.group p.public_port p.proxy_port

-- A chain of steps that ends well has a first step that does, and a rest that does.
pub bind-ok {ℓ} :
    {E A B : Type ℓ} (x : Outcome E A) (f : A → Outcome E B) (b : B)
    → (x >>= f) ≡ ok b
    → (a : A) × (x ≡ ok a) × (f a ≡ ok b)
bind-ok (ok a) f b h = (a, refl, h)
bind-ok (err e) f b h = absurd (cc)
bind-ok panic f b h = absurd (cc)

value_or {ℓ} : {E A : Type ℓ} → A → Outcome E A → A
value_or a (ok b) = b
value_or a _ = a

pub ok-injective {ℓ} : {E A : Type ℓ} (a b : A) → ◌≡◌ {A = Outcome E A} (ok a) (ok b) → a ≡ b
unfolding value_or
ok-injective a b h = ap (value_or a) h

bounded-ok : (n : ℕ) (o : Option ℤ) → bounded o ≡ ok n → (1 ≤ n) × (n ≤ 65535)
unfolding bounded
bounded-ok n none h = ground (arith, h)
bounded-ok n (some (pos k)) h = ground (arith, h)
bounded-ok n (some (negsuc k)) h = ground (arith, h)

pub port_number-ok : (n : ℕ) (parts : List Str) → port_number parts ≡ ok n → (1 ≤ n) × (n ≤ 65535)
unfolding port_number tcp_port
port_number-ok n [] h = ground (arith, h)
port_number-ok n (num ∷ []) h = ground (arith, h)
port_number-ok n (num ∷ proto ∷ x ∷ xs) h = ground (arith, h)
port_number-ok n (num ∷ proto ∷ []) h =
    let b = bind-ok (bounded (atoi_int num)) (tcp_port proto) n h in
    let e : b.0 ≡ n = ground (arith, b.2, str_beq_iff proto (lit "tcp")) in
    bounded-ok n (atoi_int num) (b.1 ∙ ap ok e)

uint16-le : (z : ℤ) → uint16 z ≤ 65535
uint16-le (pos n) = omega arith
uint16-le (negsuc n) = omega arith

proxy_number-ok : (n : ℕ) (o : Option ℤ) → proxy_number o ≡ ok n → n ≤ 65535
unfolding proxy_number
proxy_number-ok n none h = ground (arith, h)
proxy_number-ok n (some z) h = ground (arith, h, uint16-le z)

proxy_port_of-ok : (n : ℕ) (parts : List Str) → proxy_port_of parts ≡ ok n → n ≤ 65535
unfolding proxy_port_of proxy_number
proxy_port_of-ok n [] h = ground (arith, h)
proxy_port_of-ok n (word ∷ []) h = ground (arith, h)
proxy_port_of-ok n (word ∷ num ∷ x ∷ xs) h = ground (arith, h)
proxy_port_of-ok n (word ∷ num ∷ []) h = ground (arith, h, proxy_number-ok n (atoi_int num))

public_port_of-ok :
    (n port : ℕ) (parts : List Str)
    → 1 ≤ port
    → port ≤ 65535
    → public_port_of port parts ≡ ok n
    → (1 ≤ n) × (n ≤ 65535)
unfolding public_port_of
public_port_of-ok n port [] lo hi h = ground (arith, h)
public_port_of-ok n port (g ∷ []) lo hi h = ground (arith, h)
public_port_of-ok n port (g ∷ num ∷ []) lo hi h = ground (arith, h, bounded-ok n (atoi_int num))
public_port_of-ok n port (g ∷ num ∷ x ∷ xs) lo hi h = ground (arith, h)

public_group_of-ok :
    (port : ℕ) (parts comment : List Str) (g : Str) (public proxy : ℕ)
    → 1 ≤ port
    → port ≤ 65535
    → public_group_of port parts comment ≡ ok (g, public, proxy)
    → (g ≡ public_group) × ((1 ≤ public) × (public ≤ 65535)) × (proxy ≤ 65535)
unfolding public_group_of
public_group_of-ok port parts comment g public proxy lo hi h =
    let first = bind-ok (public_port_of port parts) _ (g, public, proxy) h in
    let second = bind-ok (proxy_port_of comment) _ (g, public, proxy) first.2 in
    let e = ok-injective (public_group, first.0, second.0) (g, public, proxy) second.2 in
    (
      sym (ap (λ r. r.0) e),
      public_port_of-ok public port parts lo hi (first.1 ∙ ap (λ r. ok (r.1)) e),
      proxy_port_of-ok proxy comment (second.1 ∙ ap (λ r. ok (r.2)) e),
    )

private_group_of-ok :
    (direction : Direction) (group g : Str) (public proxy : ℕ)
    → private_group_of group ≡ ok (g, public, proxy)
    → IsGroup direction g public proxy × (proxy ≤ 65535)
unfolding private_group_of
private_group_of-ok direction group g public proxy h =
    elim (Bool-cases (is_valid_group_name group)) [
      | inl v ↦
          let e : ◌≡◌ {A = Str × ℕ × ℕ} (group, 0, 0) (g, public, proxy) =
            ok-injective {E = PortError} {A = Str × ℕ × ℕ} (group, 0, 0) (g, public, proxy)
              (ground (arith, h, v)) in
          (
            inl (
              ap is_valid_group_name (sym (ap (λ r. r.0) e)) ∙ v,
              sym (ap (λ r. r.1) e),
              sym (ap (λ r. r.2) e),
            ),
            omega (arith, ap (λ r. r.2) e),
          )
      | inr v ↦ absurd (ground (arith, h, v))
    ]

pub group_of-ok :
    (direction : Direction) (port : ℕ) (group comment g : Str) (public proxy : ℕ)
    → 1 ≤ port
    → port ≤ 65535
    → group_of direction port group comment ≡ ok (g, public, proxy)
    → IsGroup direction g public proxy × (proxy ≤ 65535)
unfolding group_of
group_of-ok direction port group comment g public proxy lo hi h =
    elim (Bool-cases (starts_with public_group group)) [
      | inl s ↦ elim (Bool-cases (is_import direction)) [
        | inl i ↦ absurd (ground (arith, h, s, i))
        | inr i ↦
            let p =
              public_group_of-ok port (split b':' group) (split b':' comment) g public proxy lo hi
                (ground (arith, h, s, i)) in
            (inr (p.0, i, p.1.0, p.1.1), p.2)
      ]
      | inr s ↦ private_group_of-ok direction (to_lower group) g public proxy (ground (arith, h, s))
    ]
