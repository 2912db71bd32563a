-- ===== src/VmDatabase/GenPorts.antt =====
-- `genPortsDB` of cmd/mulchd/server/vm_database.go.
use mulch.Prelude.{
  ℕ, ◌+◌, ◌%◌, ◌^◌, Option, none, some, List, [], ◌∷◌, ◌++◌, eqb, if◌then◌else◌, Outcome, ok, err,
  ◌>>=◌, nat_eq,
}
use mulch.GoMap
use mulch.GoMap.{Map}
use mulch.Text.{Str, lit, str_eq}
use mulch.Text.Decimal.{itoa}
use mulch.Tcp.{TcpAddr, Forwarder, Listener, Listeners}
use mulch.VmPort.{VmPort, exported, is_import, base_forward, port_string}
use mulch.Vm.{Vm, VmEntry}

pub data GenError : Type 0 where
  unsupported_protocol bad_address duplicated_port : GenError

-- `net.ResolveTCPAddr`, which may ask the name servers, and the address of libvirt's gateway.
pub record Net : Type 0 where
  pub resolve : Str → Option TcpAddr
  pub gateway : Str

resolved : Option TcpAddr → Outcome GenError TcpAddr
resolved none = err bad_address
resolved (some a) = ok a

-- `fmt.Sprintf("%s:%d", host, port)`, resolved
unfoldable pub address : Net → Str → ℕ → Outcome GenError TcpAddr
unfolding resolved
address net host port = resolved (net.resolve (host ++ (lit ":" ++ itoa port)))

-- The map of all exported ports of a machine (public ones excepted).
unfoldable pub add_exports : Vm → List VmPort → Map Str Vm → Map Str Vm
add_exports vm [] out = out
add_exports vm (p ∷ ps) out = add_exports vm ps (
    if is_import p.direction
    then out
    else if eqb p.public_port 0
    then GoMap.put (port_string p) vm out
    else out)

unfoldable pub export_map : List VmEntry → Map Str Vm → Map Str Vm
unfolding add_exports
export_map [] out = out
export_map (e ∷ es) out =
    export_map es (if e.active then add_exports e.vm e.vm.config.ports out else out)

-- `VMPortBaseForward + uint16(p.Index)`, in uint16
unfoldable pub listen_port : VmPort → ℕ
listen_port p = (base_forward + p.index % 2 ^ 16) % 2 ^ 16

get_or_listen : Net → ℕ → Option Listener → Outcome GenError Listener
get_or_listen net port (some l) = ok l
get_or_listen net port none = do
  a ← address net net.gateway port
  ok (record { listen_addr = a; forwards = [] })

-- "add to the correct listener", the port being exported by `exporter`
unfoldable pub forward_import : Net → Vm → VmPort → Vm → Listeners → Outcome GenError Listeners
unfolding get_or_listen address
forward_import net vm p exporter ls = do
  l ← get_or_listen net (listen_port p) (GoMap.get (listen_port p) ls)
  dest ← address net exporter.assigned_ipv4 p.port
  let forwarder : Forwarder = record { dest = dest; proxy_proto_port = 0 }
  ok (
      GoMap.put (listen_port p)
        (record l { forwards = GoMap.put vm.assigned_ipv4 forwarder l.forwards }) ls)

exported_by : Net → Vm → VmPort → Option Vm → Listeners → Outcome GenError Listeners
exported_by net vm p none ls = ok ls
exported_by net vm p (some exporter) ls = forward_import net vm p exporter ls

unfoldable pub gen_import : Net → Map Str Vm → Vm → VmPort → Listeners → Outcome GenError Listeners
unfolding exported_by
gen_import net exports vm p ls =
    if eqb p.protocol 0
    then (if is_import p.direction
        then exported_by net vm p
            (GoMap.get (port_string (record p { direction = exported })) exports) ls
        else ok ls)
    else err unsupported_protocol

-- "add listeners for public ports"
unfoldable pub gen_public : Net → Vm → VmPort → Listeners → Outcome GenError Listeners
gen_public net vm p ls = if eqb p.public_port 0 then ok ls else do
  a ← address net [] p.public_port
  if GoMap.has p.public_port ls then err duplicated_port else do
    dest ← address net vm.assigned_ipv4 p.port
    let forwarder : Forwarder = record { dest = dest; proxy_proto_port = p.proxy_port }
    ok (
        GoMap.put p.public_port (record { listen_addr = a; forwards = (lit "*", forwarder) ∷ [] })
          ls)

-- The two nested loops, over entries and their ports.
unfoldable pub each_port :
    (VmPort → Listeners → Outcome GenError Listeners)
    → List VmPort
    → Listeners
    → Outcome GenError Listeners
each_port step [] ls = ok ls
each_port step (p ∷ ps) ls = do ls' ← step p ls; each_port step ps ls'

unfoldable pub gen_imports :
    Net → Map Str Vm → List VmEntry → Listeners → Outcome GenError Listeners
unfolding gen_import each_port
gen_imports net exports [] ls = ok ls
gen_imports net exports (e ∷ es) ls = do
  ls' ← each_port (gen_import net exports e.vm) e.vm.config.ports ls
  gen_imports net exports es ls'

unfoldable pub gen_publics : Net → List VmEntry → Listeners → Outcome GenError Listeners
unfolding gen_public each_port
gen_publics net [] ls = ok ls
gen_publics net (e ∷ es) ls = do
  ls' ← if e.active then each_port (gen_public net e.vm) e.vm.config.ports ls else ok ls
  gen_publics net es ls'

-- The entries of the greenhouse come first.
unfoldable pub gen_ports : Net → Map Str VmEntry → Map Str VmEntry → Outcome GenError Listeners
unfolding export_map gen_imports gen_publics
gen_ports net greenhouse db = do
  let entries = GoMap.values greenhouse ++ GoMap.values db
  ls ← gen_imports net (export_map entries []) entries []
  gen_publics net entries ls
