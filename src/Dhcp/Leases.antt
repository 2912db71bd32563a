-- ===== src/Dhcp/Leases.antt =====
-- Which hosts have a lease after `rebuildDHCPStaticLeases`.
use mulch.Prelude.{
  ◌≡◌, refl, sym, ◌∙◌, ap, Bool, true, false, not, ◌&&◌, ◌||◌, Option, none, some, List, [], ◌∷◌,
  ◌++◌, any, filter, arith, if◌then◌else◌, ◌==◌, drop, length, Bool-cases, inl, inr,
}
use mulch.GoMap.{has}
use mulch.Text.{Str, str_eq, str_beq_iff}
use mulch.Text.Words.{starts_with}
use mulch.Vm.{Vm}
use mulch.VmName.{VmName, id, libvirt_domain_name}
use mulch.VmDatabase.{VmDatabase}
use mulch.VmDatabase.Lookups.{names_of, get_names, get_by_name}
use mulch.VmDatabase.Invariant.{Db, IsKeyed, IsConsistent}
use mulch.Dhcp.{
  DhcpHost, Leases, has_host, find_by_host, is_nil_host, to_delete, vm_host, add_host,
  missing_machines, missing_leases, updated, update_network, rebuild_dhcp_static_leases,
}

pub has_host-append :
    (k : Str) (xs ys : List DhcpHost) → has_host k (xs ++ ys) ≡ (has_host k xs || has_host k ys)
has_host-append k [] ys = refl
has_host-append k (x ∷ xs) ys = ground (arith, has_host-append k xs ys)

abbrev pub has_lease : Str → Leases → Bool
has_lease k [] = false
has_lease k ((a, lease) ∷ leases) = lease.name == k || has_lease k leases

find_by_host-nil :
    (k : Str) (leases : Leases) → is_nil_host (find_by_host k leases) ≡ not (has_lease k leases)
unfolding find_by_host is_nil_host
find_by_host-nil k [] = refl
find_by_host-nil k ((a, lease) ∷ leases) = ground (arith, find_by_host-nil k leases)

has_host-missing_leases :
    (k : Str) (hosts : List DhcpHost) (leases : Leases)
    → has_host k (missing_leases hosts leases) ≡ (has_lease k leases && not (has_host k hosts))
unfolding missing_leases
has_host-missing_leases k hosts [] = refl
has_host-missing_leases k hosts ((a, lease) ∷ leases) =
    ground (arith, has_host-missing_leases k hosts leases, str_beq_iff lease.name k)

-- The names of the machines' domains.
abbrev pub is_machine : Str → Str → List VmName → Bool
is_machine prefix k names = any (λ n. libvirt_domain_name prefix n == k) names

has-names_of : (j : Str) (m : Db) → IsKeyed m → has j m ≡ any (λ n. id n == j) (names_of m)
unfolding has names_of
has-names_of j [] h = refl
has-names_of j ((k, e) ∷ m) h =
    ground (arith, has-names_of j m h.2, h.0, str_beq_iff k j, str_beq_iff (id e.name) j)

-- A name after the prefix.
prefix-eq :
    (prefix s k : Str)
    → ((prefix ++ s) == k) ≡ (starts_with prefix k && (s == drop (length prefix) k))
unfolding mulch.Text.str_beq
prefix-eq [] s k = ground arith
prefix-eq (c ∷ prefix) s [] = ground arith
prefix-eq (c ∷ prefix) s (b ∷ k) = ground (arith, prefix-eq prefix s k)

is_machine_lem :
    (prefix k : Str) (names : List VmName)
    → is_machine prefix k names
      ≡ (starts_with prefix k && any (λ n. id n == drop (length prefix) k) names)
unfolding libvirt_domain_name
is_machine_lem prefix k [] = ground arith
is_machine_lem prefix k (n ∷ names) =
    ground (arith, is_machine_lem prefix k names, prefix-eq prefix (id n) k)

some-injective : {xs ys : List DhcpHost} → some xs ≡ some ys → xs ≡ ys
some-injective e = ground (arith, e)

module _ (prefix : Str) (d : VmDatabase) (leases : Leases) where
  -- What is deleted depends on the name only.
  has_host-filter :
      (k : Str) (hosts : List DhcpHost)
      → has_host k (filter (to_delete prefix d leases) hosts) ≡ (
          has_host k hosts
          && starts_with prefix k
          && not (has (drop (length prefix) k) d.db)
          && not (has_lease k leases))
  unfolding to_delete
  has_host-filter k [] = refl
  has_host-filter k (h ∷ hosts) =
      ground (arith, has_host-filter k hosts, str_beq_iff h.name k, find_by_host-nil h.name leases)

  add_host-some :
      (n : VmName) (v : Option Vm) (rest : Option (List DhcpHost)) (added : List DhcpHost) (k : Str)
      → add_host prefix d leases (vm_host prefix d leases n v) rest ≡ some added
      → (xs : List DhcpHost) × (rest ≡ some xs)
        × (has_host k added ≡ (libvirt_domain_name prefix n == k || has_host k xs))
  unfolding add_host vm_host
  add_host-some n none rest added k e = absurd (ground (arith, e))
  add_host-some n (some vm) none added k e = absurd (ground (arith, e))
  add_host-some n (some vm) (some xs) added k e =
      (xs, refl, ap (has_host k) (sym (some-injective e)))

  rest_of :
      (hosts : List DhcpHost) (n : VmName) (names : List VmName)
      → has_host (libvirt_domain_name prefix n) hosts ≡ true
      → missing_machines prefix d leases hosts names
        ≡ missing_machines prefix d leases hosts (n ∷ names)
  unfolding missing_machines
  rest_of hosts n names h = rw h refl

  with_machine :
      (hosts : List DhcpHost) (n : VmName) (names : List VmName)
      → has_host (libvirt_domain_name prefix n) hosts ≡ false
      → add_host prefix d leases
          (vm_host prefix d leases n (get_by_name n d))
          (missing_machines prefix d leases hosts names)
        ≡ missing_machines prefix d leases hosts (n ∷ names)
  unfolding missing_machines
  with_machine hosts n names h = rw h refl

  missing_machines-some :
      (hosts : List DhcpHost) (names : List VmName) (added : List DhcpHost) (k : Str)
      → missing_machines prefix d leases hosts names ≡ some added
      → has_host k added ≡ (is_machine prefix k names && not (has_host k hosts))
  unfolding missing_machines
  missing_machines-some hosts [] added k e = ap (has_host k) (sym (some-injective e))
  missing_machines-some hosts (n ∷ names) added k e =
      elim (Bool-cases (has_host (libvirt_domain_name prefix n) hosts)) [
        | inl h ↦ ground (
          arith,
          missing_machines-some hosts names added k (rest_of hosts n names h ∙ e),
          h,
          str_beq_iff (libvirt_domain_name prefix n) k,
        )
        | inr h ↦
            let s =
              add_host-some n (get_by_name n d) (missing_machines prefix d leases hosts names) added
                k (with_machine hosts n names h ∙ e) in
            ground (
              arith,
              missing_machines-some hosts names s.0 k s.1,
              s.2,
              h,
              str_beq_iff (libvirt_domain_name prefix n) k,
            )
      ]

module _ (prefix : Str) (d : VmDatabase)
    (libvirt : List DhcpHost → List DhcpHost → Option (List DhcpHost)) where
  updated-none :
      (hosts : List DhcpHost) (o : Option (List DhcpHost))
      → (updated prefix d libvirt hosts o).1 ≡ none
      → o ≡ some (updated prefix d libvirt hosts o).0
  unfolding updated
  updated-none hosts none e = ground (arith, e)
  updated-none hosts (some hosts') e = refl

  update_network-none :
      (hosts : List DhcpHost) (leases : Leases) (o : Option (List DhcpHost))
      → (update_network prefix d libvirt hosts leases o).1 ≡ none
      → (machines : List DhcpHost) × (o ≡ some machines)
        × (libvirt
              (filter (to_delete prefix d leases) hosts)
              (machines ++ missing_leases hosts leases)
            ≡ some (update_network prefix d libvirt hosts leases o).0)
  unfolding update_network
  update_network-none hosts leases none e = absurd (ground (arith, e))
  update_network-none hosts leases (some machines) e = (machines, refl, updated-none hosts _ e)

  -- In a consistent database, and where libvirt deletes and adds the leases that it is given and keeps the others, a rebuild without an error leaves a lease for each name with the prefix that is a machine's or a transient lease's, and for no other such name; other names keep what they had, or have a transient lease.
  pub rebuild_dhcp_static_leases_lem :
      (connected : Bool) (hosts : List DhcpHost) (leases : Leases) (k : Str)
      → IsConsistent d.db
      → ((deleted added hosts' : List DhcpHost) (j : Str)
          → libvirt deleted added ≡ some hosts'
          → has_host j hosts'
            ≡ ((has_host j hosts && not (has_host j deleted)) || has_host j added))
      → (rebuild_dhcp_static_leases prefix d libvirt connected hosts leases).1 ≡ none
      → has_host k (rebuild_dhcp_static_leases prefix d libvirt connected hosts leases).0 ≡ (
          if starts_with prefix k
          then is_machine prefix k (get_names d) || has_lease k leases
          else has_host k hosts || has_lease k leases)
  unfolding rebuild_dhcp_static_leases
  rebuild_dhcp_static_leases_lem false hosts leases k c documented e = absurd (ground (arith, e))
  rebuild_dhcp_static_leases_lem true hosts leases k c documented e =
      let r =
        update_network-none hosts leases (missing_machines prefix d leases hosts (get_names d)) e in
      documented (filter (to_delete prefix d leases) hosts) (r.0 ++ missing_leases hosts leases)
        (update_network prefix d libvirt hosts leases
          (missing_machines prefix d leases hosts (get_names d))).0
        k r.2
      ∙ ground (
        arith,
        has_host-filter prefix d leases k hosts,
        has_host-append k r.0 (missing_leases hosts leases),
        missing_machines-some prefix d leases hosts (get_names d) r.0 k r.1,
        has_host-missing_leases k hosts leases,
        is_machine_lem prefix k (get_names d),
        has-names_of (drop (length prefix) k) d.db c.keyed,
      )
