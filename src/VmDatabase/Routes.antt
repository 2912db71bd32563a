-- ===== src/VmDatabase/Routes.antt =====
-- What `save` writes for the proxy: the routes of `genDomainsDB`.
use mulch.Prelude.{
  Outcome, ok, err, panic, ◌≡◌, refl, Option, none, some, List, [], ◌∷◌, All, arith, if◌then◌else◌,
  Option-cases, Bool-cases, inl, inr,
}
use mulch.GoMap.{Map, get, has, put}
use mulch.GoMap.Laws.{get-put, has-eq-get}
use mulch.Text.{Str, str_eq, str_beq_iff}
use mulch.Text.Words.{is_nil}
use mulch.VmName.{id}
use mulch.Disk.{write_file}
use mulch.Tcp.{Listeners}
use mulch.VmDatabase.GenPorts.{GenError, gen_ports}
use mulch.Domain.{Domain}
use mulch.Vm.{VmEntry}
use mulch.VmDatabase.{VmDatabase, Host, save, save_domains, save_listeners}
use mulch.VmDatabase.GenDomains.{routed, gen_entry_domains, gen_entry, gen_domains}

-- The domains of a machine that the proxy has to route.
abbrev pub active_domains : VmEntry → List Domain
active_domains e = if e.active then e.vm.config.domains else []

-- The route of a domain: the domain as it is configured, with the id of its machine and, if it is no
-- redirection, the last address of the machine.
abbrev pub route_to : VmEntry → Domain → Domain
route_to e d = record {
  name = d.name;
  vm_name = id e.name;
  redirect_to = d.redirect_to;
  redirect_code = d.redirect_code;
  destination_host = if is_nil d.redirect_to then e.vm.last_ip else d.destination_host;
  destination_port = d.destination_port;
  redirect_to_https = d.redirect_to_https;
  rate_profile = d.rate_profile;
  target_url = d.target_url;
  chained = d.chained;
}

routed-route_to : (e : VmEntry) (d : Domain) → routed e d ≡ route_to e d
unfolding routed
routed-route_to e d = refl

-- A route to the machine for each of the domains.
abbrev pub HasRoutes : Map Str Domain → VmEntry → List Domain → Type 0
HasRoutes out e = All (λ d. get d.name out ≡ some (route_to e d))

name-routed : (e : VmEntry) (d : Domain) → (routed e d).name ≡ d.name
unfolding routed
name-routed e d = refl

get-gen_entry_domains :
    (e : VmEntry) (ds : List Domain) (out out' : Map Str Domain) (k : Str) (v : Domain)
    → (gen_entry_domains e ds out).1 ≡ some out'
    → get k out ≡ some v
    → get k out' ≡ some v
unfolding gen_entry_domains
get-gen_entry_domains e [] out out' k v h g = ground arith
get-gen_entry_domains e (d ∷ ds) out out' k v h g =
    let d' = routed e d in
    ground (
      arith,
      get-gen_entry_domains e ds (put d'.name d' out) out' k v,
      get-put d'.name k d' out,
      has-eq-get d'.name out,
      str_beq_iff d'.name k,
    )

gen_entry_domains-HasRoutes :
    (e : VmEntry) (ds : List Domain) (out out' : Map Str Domain)
    → (gen_entry_domains e ds out).1 ≡ some out'
    → HasRoutes out' e ds
unfolding gen_entry_domains
gen_entry_domains-HasRoutes e [] out out' h = tt
gen_entry_domains-HasRoutes e (d ∷ ds) out out' h =
    let d' = routed e d in
    elim (Bool-cases (has d'.name out)) [
      | inl p ↦ absurd (ground arith)
      | inr p ↦ (
        ground (
          arith,
          get-gen_entry_domains e ds (put d'.name d' out) out' d.name d',
          get-put d'.name d.name d' out,
          name-routed e d,
          routed-route_to e d,
          str_beq_iff d'.name d.name,
        ),
        gen_entry_domains-HasRoutes e ds (put d'.name d' out) out' (ground arith),
      )
    ]

get-gen_entry :
    (e : VmEntry) (out out' : Map Str Domain) (k : Str) (v : Domain)
    → (gen_entry e (some out)).1 ≡ some out'
    → get k out ≡ some v
    → get k out' ≡ some v
unfolding gen_entry
get-gen_entry e out out' k v h g =
    ground (arith, get-gen_entry_domains e e.vm.config.domains out out' k v)

gen_entry-HasRoutes :
    (e : VmEntry) (out out' : Map Str Domain)
    → (gen_entry e (some out)).1 ≡ some out'
    → HasRoutes out' e (active_domains e)
unfolding gen_entry
gen_entry-HasRoutes e out out' h = elim (Bool-cases e.active) [
  | inl a ↦ rw a (gen_entry_domains-HasRoutes e e.vm.config.domains out out' (ground arith))
  | inr a ↦ rw a tt
]

gen_domains-none : (m : Map Str VmEntry) → (gen_domains m none).1 ≡ none
unfolding gen_domains gen_entry
gen_domains-none [] = refl
gen_domains-none ((k, e) ∷ m) = gen_domains-none m

get-gen_domains :
    (m : Map Str VmEntry) (o : Option (Map Str Domain)) (out out' : Map Str Domain) (k : Str)
    (v : Domain)
    → o ≡ some out
    → (gen_domains m o).1 ≡ some out'
    → get k out ≡ some v
    → get k out' ≡ some v
unfolding gen_domains
get-gen_domains [] o out out' k v p h g = ground arith
get-gen_domains ((j, e) ∷ m) o out out' k v p h g = elim (Option-cases (gen_entry e o).1) [
  | inl n ↦ ground (arith, gen_domains-none m)
  | inr (mid, n) ↦
      ground
        (arith, get-gen_domains m (gen_entry e o).1 mid out' k v n, get-gen_entry e out mid k v)
]

HasRoutes-later :
    (e : VmEntry) (ds : List Domain) (m : Map Str VmEntry) (mid out' : Map Str Domain)
    → (gen_domains m (some mid)).1 ≡ some out'
    → HasRoutes mid e ds
    → HasRoutes out' e ds
HasRoutes-later e [] m mid out' h r = tt
HasRoutes-later e (d ∷ ds) m mid out' h r = (
  get-gen_domains m (some mid) mid out' d.name (route_to e d) refl h r.0,
  HasRoutes-later e ds m mid out' h r.1,
)

-- Every machine of a database has its routes.
abbrev pub AllRouted : Map Str Domain → Map Str VmEntry → Type 0
AllRouted out = All (λ p. HasRoutes out p.1 (active_domains p.1))

gen_domains-AllRouted :
    (m : Map Str VmEntry) (out out' : Map Str Domain)
    → (gen_domains m (some out)).1 ≡ some out'
    → AllRouted out' m
unfolding gen_domains
gen_domains-AllRouted [] out out' h = tt
gen_domains-AllRouted ((k, e) ∷ m) out out' h = elim (Option-cases (gen_entry e (some out)).1) [
  | inl n ↦ absurd (ground (arith, gen_domains-none m))
  | inr (mid, n) ↦ (
    HasRoutes-later e (active_domains e) m mid out' (ground arith)
        (gen_entry-HasRoutes e out mid n),
    gen_domains-AllRouted m mid out' (ground arith),
  )
]

domain_file-save_listeners :
    (h : Host) (d : VmDatabase) (o : Outcome GenError Listeners)
    → (save_listeners h d o).0.domain_file ≡ d.domain_file
unfolding save_listeners
domain_file-save_listeners h d (ok ls) = ground arith
domain_file-save_listeners h d (err e) = refl
domain_file-save_listeners h d panic = refl

domain_file-save_domains :
    (h : Host) (d : VmDatabase) (out : Map Str Domain)
    → (save_domains h d (some out)).1 ≡ none
    → (save_domains h d (some out)).0.domain_file ≡ some out
unfolding save_domains
domain_file-save_domains h d out e =
    let d' = record d { domain_file = write_file h.domain_io out d.domain_file } in
    ground (arith, domain_file-save_listeners h d' (gen_ports h.net d.greenhouse d.db))

-- After a `save` without an error, the file of domains that the proxy reads holds, for each domain of each active machine, under its name, the domain as it was, with the id of this machine and, if it is no redirection, the machine's last address as its destination.
pub save-AllRouted :
    (h : Host) (d : VmDatabase)
    → (save h d).1 ≡ none
    → (out : Map Str Domain) × ((save h d).0.domain_file ≡ some out) × AllRouted out d.db
unfolding save save_domains
save-AllRouted h d e = elim (Option-cases (gen_domains d.db (some [])).1) [
  | inl n ↦ absurd (ground arith)
  | inr (out, n) ↦ (
    out,
    ground (
      arith,
      domain_file-save_domains h
          (record d { file = write_file h.db_io d.db d.file; db = (gen_domains d.db (some [])).0 })
          out,
    ),
    gen_domains-AllRouted d.db [] out n,
  )
]
