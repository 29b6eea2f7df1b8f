-- ===== src/Lib.antt =====
-- PulseHA keeps floating IP addresses on one active machine of a cluster and moves them when it fails. This
-- library models the daemon, with its configuration, its list of members, the groups of floating addresses
-- and the change of roles; and the commands of its client.
--
-- Parts and files, with paths from the repository's root:
--   Config       packages/config/config.go: Config, Local, Node; Validate and the lookups by hostname, address
--                and group (validate, get_node_by_hostname, ...).
--   ConfigFile   the same file: Load, Save, Reload, SaveDefaultLocalConfig, UpdateValue, UpdateHostname.
--   JsonHelper   packages/jsonHelper/jsonHelper.go: SetStructFieldByTag. Strconv has the parts of Go's strconv
--                that it and group names use.
--   World        the state: Database of src/pulseha/database.go with the member objects, the config file and a
--                trace of what was done to the surroundings; Env answers for everything outside the repository.
--   Member       src/pulseha/member.go (setters, Connect, Close), packages/client/client.go,
--                packages/logging/logging.go and MemberList.Broadcast.
--   MemberList   src/pulseha/member_list.go: the operations on the list.
--   Nodes        src/pulseha/nodes.go: the nodes section.
--   Groups       src/pulseha/groups.go, as far as it works on the configuration alone, with the address tests of
--                packages/utils/utils.go.
--   Network      src/pulseha/utils.go and src/pulseha/groups.go: what brings addresses up and down.
--   Failover     MakeActive, MakePassive, MonitorReceivedHCs of src/pulseha/member.go; PromoteMember and
--                GetNextActiveMember of src/pulseha/member_list.go.
--   HealthCheck  MonitorClientConns of src/pulseha/member_list.go, SendHealthCheck and RoutineHC of
--                src/pulseha/member.go, ProcessHCs of src/pulseha/healthcheck_list.go.
--   Score        GetHighestScoreMember and AddHealthCheckHandler of src/pulseha/member_list.go.
--   Server       src/pulseha/server.go: the requests of other nodes, each behind CanCommunicate.
--   CliServer    src/pulseha/cli_server.go: the commands of the local client, each behind ClusterCheck.
--   Security     packages/security: the files of the certificates and the hashes of tokens.
--   Joining      Create and Join of src/pulseha/cli_server.go, Join of src/pulseha/server.go, and nodeCreateLocal
--                of src/pulseha/nodes.go.
--   Administration  Config, Token, TLS, Network, GroupList and Status of src/pulseha/cli_server.go; what
--                src/pulseha/nodes.go updates of the local node.
--   Netcore      packages/network/network.go and plugins/netcore/main.go: addresses on interfaces, over netlink.
--   Endpoints    packages/utils/utils.go: addresses with brackets, masks and ports.
--   Serial       plugins/hcSerial: the options of a serial port and the plugin that opens one.
--   Ping         plugins/hcPing, with the sections of plugins of packages/config/config.go.
--   Scheduler    packages/utils/utils.go: Scheduler, which runs the rounds of a routine.
--   Pulsectl     cmd/pulsectl/main.go and src/pulsectl: the commands of the client up to the exit code, over the
--                calls of the daemon.
--   Plugins      src/pulseha/plugins.go: which plugins Setup loads from the shared objects that open.
--   Cluster      what one machine sends with Client.Send of packages/client/client.go, handled by the other.
--   Startup      cmd/pulseha/main.go; Init and Setup of src/pulseha/server.go, MemberList.Setup.
--   Base, GoMap, Exec hold what these share: numbers, lists and texts; Go maps; the effect of the daemon's code.
--   Tests        a cluster of two machines on which the theorems are applied.
--
-- How the code is rendered:
--   A function of the daemon is an action on the state (Exec) that returns, panics, ends the process, or waits
--   for ever for a mutex that it holds. A pointer to a member is an address in a heap, so that aliasing is kept.
--   The mutex of the member list is not reentrant; the other mutexes are held by one action at a time and are
--   left out, as is the order in which goroutines interleave: a goroutine that is started is an event, and so
--   is a tick of its scheduler.
--   A Go map is an association list in the order in which one range meets it, and remembers whether it is nil.
--   Writing to a nil map panics in Go; this is left out but for Plugins in Ping, and the other maps that are
--   written are taken to be made.
--   A machine integer is an integer with its wrap-around where the code computes; a time is a number of
--   nanoseconds since Go's zero time. Loops are structural, or run on a count that the code itself bounds;
--   Scheduler, which only its routine ends, runs for a number of ticks.
--   encoding/json is not modelled: what it prints and reads back is the configuration itself, a file is absent,
--   unreadable or holds one, and a failed WriteFile leaves what Env says. The sections of plugins are opaque
--   texts but in Ping, where a section is the pointer that SetPluginConfig was given or what json reads.
--   grpc.Dial, which does not block, may give no connection; then Connect still returns nil and the next call
--   panics, as in the code. Theorems on what returns have its success as the hypothesis CanDial.
--   Messages of level Warn, Info and Error are sent to the cluster, as in the code; Debug is left out, since the
--   level is fixed at INFO, and so are messages of the local log.
--   What gRPC, netlink, plugins, the clock and the disk answer is given by Env, as a function of all that the
--   daemon has done so far.
--
-- Not modelled: what serves the requests once Setup listens (gRPC), and the format of log lines;
-- packages/osStat, and what else only runs a program of the system; the fields of certificates, and the
-- cryptography, of packages/security (a parameter, Disk); of the client the parsing of flags and what only
-- prints (the tables of status and groups, version and describe); the plugin genEmailAlerts, whose code is
-- commented out, and what hcSerial reads and writes; and the code generated from rpc/pulse.proto.
pub mod Base
pub mod GoMap
pub mod Strconv
pub mod Exec
pub mod JsonHelper
pub mod Config
pub mod ConfigFile
pub mod World
pub mod Member
pub mod MemberList
pub mod Nodes
pub mod Groups
pub mod Network
pub mod Failover
pub mod HealthCheck
pub mod Score
pub mod Server
pub mod CliServer
pub mod Plugins
pub mod Security
pub mod Joining
pub mod Administration
pub mod Netcore
pub mod Endpoints
pub mod Pulsectl
pub mod Cluster
pub mod Startup
pub mod Serial
pub mod Ping
pub mod Scheduler
mod Tests
