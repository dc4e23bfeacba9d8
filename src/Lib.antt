-- ===== src/Lib.antt =====
-- Konk runs the ranks of an MPI application in containers and migrates them between nodes. This library
-- models its coordinator, the transfer of checkpoints between nodes, and the containers of a node, and
-- proves properties of them.
--
-- The parts, and how they interact:
-- - the coordinator (srv/coordinator) is one loop that handles requests in turn. It keeps the location
--   of every container and the identifiers of the nodes' daemons, and calls the daemons to migrate
--   containers and to pass on signals;
-- - a nymph (srv/nymph, pkg/nymph) is the daemon of a node. As the donor of a migration it sends the
--   files of a checkpoint; as the recipient it writes them and restores the container;
-- - a container (pkg/container) has numbered checkpoints and is registered by its rank.
--
-- Files, and what they model:
-- - Base: equality, options, permutations (Base/Perms), errors, integers and maps; Base/Exec is code
--   that returns a value or an error, ends the process by log.Fatal, or panics, with Base/Exec/Ensures
--   to reason about it. A Go map is an association list (Base/Dict) whose order is the order of
--   `range`, but for the report of LocationsStat, which allocateHost visits in an order of its own; an `int` is the ℤ of Base/Int, a `uint` and a file size a natural number; an `error` is
--   the `err` of a Fallible.
-- - Coordinator/LocationDb: srv/coordinator/location.go, a record with the map; Get, Set, Unset,
--   LocationsStat and Dump are get, set, unset, locations_stat and dump.
-- - Coordinator/NymphSet: srv/coordinator/nymph_set.go; Add, Del and GetNymphs are add, del and
--   get_nymphs. The bit set is the record BitSet of operations with the laws IsLawful, and
--   Coordinator/NymphSet/Memory has a value that meets them.
-- - Coordinator/Migrate and Coordinator/Control: srv/coordinator/migrate.go and control.go, with the
--   arguments of pkg/coordinator/rpc.go. A handler takes the control, the world of the transport and
--   the reply, and returns all three with the error. `start` is the loop over a list of requests.
-- - Coordinator/Server: srv/coordinator/server.go, the methods that are served over RPC.
-- - Coordinator/Client: pkg/coordinator/client.go against that server; a Delivery (Util/Rpc) says
--   whether a call is answered, or is lost before or after the server has handled it.
-- - Coordinator/Scheduler: srv/coordinator/scheduler.go, one round for each tick; a panic is a result.
-- - Nymph/Client: pkg/nymph/client.go over a Transport, the parameter for dialling and calling. Dialling
--   never returns an error and tries for ever while the host is not reached; the model is of the runs in
--   which calls return, and Coordinator/Control/Ends says which requests do.
-- - Nymph/MigrationClient: pkg/nymph/migrate.go over a Peer, the parameter that answers the calls.
-- - Nymph/MigrationDonor and Nymph/Recipient: srv/nymph/migrate-donor.go and migrate-recipient.go. The
--   donor reads a DonorFs; the recipient works on an Os, whose laws on a node where nothing fails are
--   IsReliable. Nymph/Transfer connects the two as srv/nymph/nymph.go registers them.
-- - Nymph/Relaunch: Recipient.Relaunch; the drivers are the parameter Network, a list of records, whose
--   PostRestore can end the process by log.Fatal.
-- - Nymph/Send: srv/nymph/migrate.go over a Remote, the parameter for the other nodes. A panic is
--   `none`.
-- - Nymph/Migration: Nymph/Send with a Remote that is the recipient of the destination, its Relaunch
--   included; Nymph/Send/Traffic is what such a destination has to keep for the calls of a donor.
-- - Coordinator/Cluster: the Transport of Coordinator/Migrate that is the nymph with a container.
-- - Nymph/Run: Nymph.Run and getImage of srv/nymph/server.go over a Host, the parameter for images, the
--   conversion of their specifications, the devices of the node and the coordinator's client, with
--   addDevices in Nymph/Devices. A panic is `none`.
-- - Nymph/Daemon: NewNymph, the registration loop and _Close of srv/nymph/server.go over a Node, the
--   parameter for the operating system, networks, register, images and client.
-- - Nymph/Process: srv/nymph/nymph.go, its process from the start to the loop that serves; what it
--   hands to CrashHandler is in the Outcome. Nymph/Process/Exit runs that with the goroutines of
--   Util/Context, and Nymph/Process/Whole from the start on.
-- - Coordinator/Channel: the channel of requests of control.go, with the loop and its callers as
--   goroutines that take their steps in any order, and the world going on; a request whose calls do not
--   return keeps the loop. Coordinator/Channel/Numbers
--   has the identifiers that the coordinator gives in the labels of the containers that nymphs start
--   (Nymph/Run/Numbers).
-- - Container/Labels, Container/Address and Container/Device: pkg/container/labels.go and util.go.
-- - Container/Image and Container/Times: pkg/container/image.go and utimes.go over an ImageOs; an
--   archive is the list of what its reader gives.
-- - Network/Netlink: the calls of netlink, a parameter, and its laws IsLawful. Network/Veth,
--   Network/Ovs and Network/Rxe: pkg/network/veth.go, ovs.go and rxe.go, with the 64 bits of `uint`
--   written out; Network/Peers: util.go. Network/Driver and Network/Hooks: network.go, pkg/hook/hook.go
--   and the branch of konk.go that runs a hook.
-- - Criu/ProcessTree, Criu/Service and Criu/Messages: pkg/criu/process_tree.go and criu_service.go.
-- - Config: config/viper.go over a Viper, the parameter for the values; Config/File reads the file.
-- - Command/Daemons: the goroutine of cmd/nymph.go and of cmd/coordinator.go, and Init of
--   pkg/node/node.go, which returns at once. The exit code is not modelled: Util/Context has the
--   goroutine that ends the process upon a signal.
-- - Command/Run, Command/Console and Command/Mpirun: cmd/run.go, cmd/console.go and
--   pkg/mpirun/mpirun.go.
-- - Container/Types, Container/Checkpoint, Container/Life and Container/Registry:
--   pkg/container/checkpoint.go, container.go, rpc.go and container_registry.go (with
--   Container/Registry/Start), over libcontainer and the operating system, which are the parameter
--   Runtime.
-- - Util/Server and Util/Dial: pkg/util/server.go, with its retry loop in Util/Dial; Util/Serving is
--   its loop at the end of a process. Coordinator/Process: srv/coordinator/coordinator.go.
-- - Util/Context: pkg/util/context.go, whose goroutines take their steps in any order; a process that
--   ends because `main` returns is not part of it.
-- - Tests: the theorems at concrete inputs.
--
-- A method that holds a mutex from its first line to its last is one step. Logging changes no state and
-- is left out. Fuel is taken by five loops, one unit for each round: dialling and the registration of a
-- node, where fuel beyond the attempts that fail is enough; the connection to criu, where twelve are;
-- the walk of a process tree, where the number of its processes is; and the loop that accepts
-- connections, which goes on until one fails. Reading a file or an archive is the list of what the
-- reads give, so that it is recursion on that list. All other loops are recursion on the list that they
-- range over.
--
-- Not modelled are pkg/container/tty.go, which is a copy of a file of runc; the code behind the panics
-- of pkg/network/ovs.go and of Nymph.Signal, and behind the return of Init in pkg/node/node.go, which
-- is not reached; the launchers of processes and the declarations of flags, which only call libraries;
-- and the goroutine that waits for a container. A netlink, an Open vSwitch, the files of /proc, a disk,
-- an archive, a process table and a clock are parameters, each with its laws where a theorem needs them
-- and a value that meets them in Tests.
pub mod Base
pub mod Util
pub mod Config
pub mod Criu
pub mod Container
pub mod Network
pub mod Nymph
pub mod Coordinator
pub mod Command
pub mod Tests
