-- ===== src/VmDatabase.antt =====
-- cmd/mulchd/server/vm_database.go: the state, its file, and the lookups. Names are given as ids or
-- as names; the greenhouse holds the machines under construction and is not stored on disk.
pub mod GenDomains
pub mod GenPorts
pub mod Lookups
pub mod Conflicts
pub mod Update
pub mod Invariant
pub mod Keeps
pub mod Active
pub mod Activate
pub mod Routes
pub mod Methods
mod Tests
use mulch.Prelude.{Bool, true, false, Option, none, some, List, [], ◌∷◌, if◌then◌else◌, ℕ, ◌+◌}
use mulch.Prelude.{Outcome, ok, err, panic}
use mulch.GoMap.{Map}
use mulch.Text.{Str}
use mulch.Disk.{Io, write_file, succeeded}
use mulch.Domain.{Domain}
use mulch.Vm.{VmEntry}
use mulch.VmDatabase.GenDomains.{gen_domains}
use mulch.Tcp.{Listeners}
use mulch.VmDatabase.GenPorts.{Net, GenError, gen_ports}

pub data VmdbError : Type 0 where
  not_found already_exists domain_conflict parent_conflict port_conflict own_port : VmdbError
  cannot_write duplicated_domain : VmdbError
  bad_ports : GenError → VmdbError

-- `updates` counts the calls of `onUpdate`, which asks for a reload of the proxy.
pub record VmDatabase : Type 0 where
  pub db : Map Str VmEntry
  pub greenhouse : Map Str VmEntry
  pub file : Option (Map Str VmEntry)
  pub domain_file : Option (Map Str Domain)
  pub port_file : Option Listeners
  pub updates : ℕ

-- What the host answers during one call: the three files, the network, and the parent of a proxy
-- chain, if this is a child (`none` otherwise): whether it accepts the list of domains.
pub record Host : Type 0 where
  pub db_io : Io
  pub domain_io : Io
  pub port_io : Io
  pub net : Net
  pub ask_parent : Option (List Str → Bool)

abbrev pub Update : Type 0
Update = VmDatabase × Option VmdbError

save_listeners : Host → VmDatabase → Outcome GenError Listeners → Update
save_listeners h d (err e) = (d, some (bad_ports e))
save_listeners h d panic = (d, some cannot_write)
save_listeners h d (ok ls) =
    if succeeded h.port_io
    then (record d { port_file = some ls; updates = d.updates + 1 }, none)
    else (record d { port_file = write_file h.port_io ls d.port_file }, some cannot_write)

save_domains : Host → VmDatabase → Option (Map Str Domain) → Update
unfolding save_listeners
save_domains h d none = (d, some duplicated_domain)
save_domains h d (some domains) =
    let d' = record d { domain_file = write_file h.domain_io domains d.domain_file } in
    if succeeded h.domain_io
    then save_listeners h d' (gen_ports h.net d.greenhouse d.db)
    else (d', some cannot_write)

-- `save`: the file, then the domains, then the ports, then `onUpdate`.
unfoldable pub save : Host → VmDatabase → Update
unfolding save_domains gen_domains
save h d =
    let d' = record d { file = write_file h.db_io d.db d.file } in
    let (db', domains) = gen_domains d.db (some []) in
    if succeeded h.db_io
    then save_domains h (record d' { db = db' }) domains
    else (d', some cannot_write)
