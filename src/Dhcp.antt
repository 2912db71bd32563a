-- ===== src/Dhcp.antt =====
-- cmd/mulchd/server/libvirt_dhcp.go: the static DHCP leases of the network, made to follow the database
-- of machines and the transient leases. A method returns the hosts of the network that it leaves behind,
-- and its error (`none` is nil). `libvirt` stands for the updates of the network, given the hosts to
-- delete and to add, and its description afterwards; `none` is an error of one of these calls.
pub mod Leases
mod Tests
use mulch.Prelude.{
  ℕ, Bool, true, false, not, ◌&&◌, Option, none, some, List, [], ◌∷◌, ◌++◌, any, filter,
  if◌then◌else◌, ◌==◌, drop, length, nat_eq,
}
use mulch.GoMap.{Map, has, put, remove}
use mulch.Text.{Str, str_eq}
use mulch.Text.Words.{starts_with}
use mulch.Vm.{Vm}
use mulch.VmName.{VmName, libvirt_domain_name}
use mulch.VmDatabase.{VmDatabase}
use mulch.VmDatabase.Lookups.{get_names, get_by_name}

-- `libvirtxml.NetworkDHCPHost`, as far as it is used
pub record DhcpHost : Type 0 where
  pub name : Str
  pub mac : Str
  pub ip : Str

-- The transient leases, by their address.
abbrev pub Leases : Type 0
Leases = Map ℕ DhcpHost

pub data DhcpError : Type 0 where
  not_connected not_found libvirt_failed : DhcpError

abbrev pub has_host : Str → List DhcpHost → Bool
has_host name hosts = any (λ h. h.name == name) hosts

-- `findByHost`
unfoldable pub find_by_host : Str → Leases → Option DhcpHost
find_by_host host [] = none
find_by_host host ((a, lease) ∷ leases) =
    let rest = find_by_host host leases in if lease.name == host then some lease else rest

unfoldable pub is_nil_host : Option DhcpHost → Bool
is_nil_host none = true
is_nil_host (some h) = false

module _ (prefix : Str) (d : VmDatabase) (leases : Leases) where
  -- "search for leases to delete": of no machine, and not transient.
  unfoldable pub to_delete : DhcpHost → Bool
  unfolding is_nil_host
  to_delete host =
      starts_with prefix host.name
      && not (has (drop (length prefix) host.name) d.db)
      && is_nil_host (find_by_host host.name leases)

  unfoldable pub vm_host : VmName → Option Vm → Option DhcpHost
  vm_host name none = none
  vm_host name (some vm) = some (record {
    name = libvirt_domain_name prefix name;
    mac = vm.assigned_mac;
    ip = vm.assigned_ipv4;
  })

  unfoldable pub add_host : Option DhcpHost → Option (List DhcpHost) → Option (List DhcpHost)
  add_host none hosts = none
  add_host (some host) none = none
  add_host (some host) (some hosts) = some (host ∷ hosts)

  -- "search for leases to add (from VM database)"; `none` is an error of GetByName.
  unfoldable pub missing_machines : List DhcpHost → List VmName → Option (List DhcpHost)
  unfolding vm_host add_host
  missing_machines hosts [] = some []
  missing_machines hosts (name ∷ names) =
      let rest = missing_machines hosts names in
      if has_host (libvirt_domain_name prefix name) hosts
      then rest
      else add_host (vm_host name (get_by_name name d)) rest

-- "search for leases to add (from transient database)"
unfoldable pub missing_leases : List DhcpHost → Leases → List DhcpHost
missing_leases hosts [] = []
missing_leases hosts ((a, lease) ∷ leases) =
    let rest = missing_leases hosts leases in
    if has_host lease.name hosts then rest else lease ∷ rest

module _ (prefix : Str) (d : VmDatabase)
    (libvirt : List DhcpHost → List DhcpHost → Option (List DhcpHost)) where
  unfoldable pub updated : List DhcpHost → Option (List DhcpHost) → List DhcpHost × Option DhcpError
  updated hosts none = (hosts, some DhcpError.libvirt_failed)
  updated hosts (some hosts') = (hosts', none)

  unfoldable pub update_network :
      List DhcpHost → Leases → Option (List DhcpHost) → List DhcpHost × Option DhcpError
  unfolding updated
  update_network hosts leases none = (hosts, some DhcpError.not_found)
  update_network hosts leases (some machines) =
      updated hosts (
        libvirt (filter (to_delete prefix d leases) hosts)
          (machines ++ missing_leases hosts leases))

  -- `rebuildDHCPStaticLeases`
  unfoldable pub rebuild_dhcp_static_leases :
      Bool → List DhcpHost → Leases → List DhcpHost × Option DhcpError
  unfolding update_network
  rebuild_dhcp_static_leases connected hosts leases =
      if connected
      then update_network hosts leases (missing_machines prefix d leases hosts (get_names d))
      else (hosts, some DhcpError.not_connected)

  -- `AddTransientDHCPHost` and `RemoveTransientDHCPHost`, of the lease at an address.
  unfoldable pub add_transient_dhcp_host :
      Bool → ℕ → DhcpHost → List DhcpHost → Leases → Leases × List DhcpHost × Option DhcpError
  add_transient_dhcp_host connected address host hosts leases =
      let leases' = put address host leases in
      let (hosts', e) = rebuild_dhcp_static_leases connected hosts leases' in (leases', hosts', e)

  unfoldable pub remove_transient_dhcp_host :
      Bool → ℕ → List DhcpHost → Leases → Leases × List DhcpHost × Option DhcpError
  remove_transient_dhcp_host connected address hosts leases =
      let leases' = remove address leases in
      let (hosts', e) = rebuild_dhcp_static_leases connected hosts leases' in (leases', hosts', e)
