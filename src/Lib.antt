-- ===== src/Lib.antt =====
-- A verification library for mulch, which manages virtual machines: mulchd (cmd/mulchd) keeps the
-- databases of machines, API keys and secrets and tells its clients what happens; mulch-proxy
-- (cmd/mulch-proxy) is the reverse proxy before the machines, alone or in a chain of proxies.
--
-- How the parts interact. Every change of the database of machines (VmDatabase) is saved together
-- with the files that the proxy reads, made from the domains and ports of the active machines. The
-- secrets (Secrets) are shared by the servers: each change is sent to the peers, which merge it and
-- answer with what is newer on their side. A request to mulchd is accepted by the rights of its API
-- key (ApiKeys). A child proxy announces its domains to its parent, which routes them
-- (Proxy.Domains); a request (Proxy.Requests) first passes its rate controller (Proxy.Rates). The
-- TCP proxy (Proxy.Ports) forwards the ports that the file names. Messages go to the clients
-- through the hub (Hub), and the last ones are kept (LogHistory).
--
-- A machine begins as a file, which is read and checked (Config); it is created, saved, restored,
-- rebuilt and deleted by a sequence of steps (Lifecycle) on the databases of machines, backups and
-- leases, between calls of libvirt, SSH and files. Each of these may fail, and then what was done so
-- far is undone by the deferred functions. The scripts of a machine get its variables from EnvMap,
-- which reads the configuration and the secrets, and those that prepare a machine may add tags and
-- actions to it (Lifecycle.Callback).
--
-- Which file models which part, all under cmd/mulchd/server/ if not said otherwise:
--   Secrets          secret_database.go: the state, Get, set, delete, SyncWithDatabase
--   Secrets.Peers    Set, Delete, SyncPeers, SyncPeer, and cmd/mulchd/controllers/secret.go
--   Secrets.CleanKey CleanKey
--   VmName           vm_name.go; Vm, the records of vm.go and vm_config.go
--   Config           vm_config.go: NewVMConfigFromTomlReader is Config.Reader, and its parts are
--                    Config.Domains, Config.Env and Config.Scripts; Config.Origins, origin.go
--   EnvMap           vm.go: GetSecretsMap and GetEnvMap
--   Lifecycle        vm.go: the state and the steps; its children hold NewVM (Create), what it reads
--                    from scripts (Callback), VMBackup and VMRestoreNoChecks (Backup), VMDelete,
--                    VMLockUnlock and VMIsRunning (Delete), and VMRebuild (Rebuild)
--   VmPort           vm_port.go: the port; its children hold NewVMPortArray: Comment and Parse the
--                    lines, Ranges the ranges and the whole
--   VmDatabase       vm_database.go: the state and save; its children hold genDomainsDB, genPortsDB,
--                    the lookups, the conflict checks of domains.go and vm_port.go, and the updates
--   ApiKeys          api_keys.go; ApiKeys.Rights, its rights
--   Domain           common/domain.go and common/proxy_chain_domains.go
--   Message, Hub     common/message.go, hub.go; LogHistory, log_history.go
--   Backups          backup_database.go, backup.go; VmStates, vmstate_database.go; Dhcp,
--                    libvirt_dhcp.go
--   Proxy.Domains    cmd/mulch-proxy/domain_database.go
--   Proxy.Rates      cmd/mulch-proxy/rate_controller.go; Proxy.Rates.Steps, its use by handleRequest
--   Proxy.Requests   cmd/mulch-proxy/proxy.go: handleRequest, what it calls, and the reload of routes
--   Proxy.Ports      cmd/mulch-proxy/port_database.go, port_listener.go, port_server.go
--   Tcp              common/ports.go
--   Text, GoMap, Disk, Prelude   Go's strings, maps and files, and helpers; IsValidName of tools.go
--
-- How state corresponds. A method takes the state and gives the new state with its error (`none` is
-- nil). Locks are not modelled: a method under its mutex is one step. A map is the list of its
-- entries in some order, which `range` follows; the statements hold for every order. Strings are
-- byte strings; white space and letter case are those of ASCII. Times are numbers. Saving takes how
-- the calls of the operating system turn out (Disk.Io), and the content of a file is the value that
-- was encoded. A pointer is a number where identity matters (Vm.address, ApiKey.address, the heaps
-- of Hub, Proxy.Rates and LogHistory, the close channels of Proxy.Ports). A run-time panic is a
-- result of its own. In Lifecycle a step takes the whole World (the databases, and the list of the
-- calls of libvirt that succeeded) and gives the next one with its result; `deferring` is Go's
-- defer, in the order of its code. How a call turns out is a function of the number of the calls
-- before it (Env), so that a theorem for every Env is one for all answers, in any order.
--
-- Bounds and fuel. A revision is a natural number at most 2^63 - 1, and RevisionNone is `none`;
-- ports and sums of ports wrap at 2^16. Every loop is structural but two: the digits of a number
-- are printed on fuel, one more than the number, and ParseVMName reads them back
-- (VmName.RoundTrip); and the loop of LogHistory.search has one more than the size of the list,
-- which is enough for every list that pushes make (LogHistory.Bounded). The wait of NewVM for the
-- first call of a machine is a recursion over what happens before its timeout, which ends it.
--
-- Parameters. net/url (`hostname`, `parse_url`), glob.Glob (`glob`), net.ResolveTCPAddr
-- (`Net.resolve`), net.SplitHostPort (`host_of_addr`), whether a port can be opened and closed
-- (`listens`, `closes`), what libvirt answers (`running`, `volumes`, `libvirt`), the clock (`now`),
-- the answer of a peer (`Peer.call`), the parent of a proxy chain (`Host.ask_parent`), the keys
-- that crypto draws, and the answer of a rate limiter's Wait (`Wait`) are arguments. So are, for
-- the configuration, the decoders of TOML and of env_raw, time.ParseDuration, url.Parse and the
-- reading of an origin (Config.Outside), and, for the life of a machine, the answers of libvirt, of
-- the scripts and of the network, with random addresses and dates (Lifecycle.Env).
--
-- What is not modelled: libvirt, SSH, HTTP and JSON, cryptography, the configuration files of the
-- programs themselves, downloads, the description of a domain that NewVM makes from a template file,
-- the inside of VMAttachBackup and VMDetachBackup, the copying between sockets of the TCP proxy, the
-- command line client (cmd/mulch), and everything that only prints. A run of scripts is one call,
-- with the lines that it prints.
pub mod ApiKeys
pub mod Backups
pub mod Config
pub mod Dhcp
pub mod Disk
pub mod Domain
pub mod EnvMap
pub mod GoMap
pub mod Hub
pub mod Lifecycle
pub mod LogHistory
pub mod Message
pub mod Prelude
pub mod Proxy
pub mod Secrets
pub mod Tcp
pub mod Text
pub mod Vm
pub mod VmDatabase
pub mod VmName
pub mod VmPort
pub mod VmStates
