-- ===== src/Lib.antt =====
-- OpenE2B runs sandboxes (containers or small virtual machines) on a cluster of nodes. The API
-- (internal/api) keeps a record of each sandbox in a database (internal/db) and asks the scheduler
-- (internal/scheduler) to place it on a node; the scheduler asks the nodes (internal/orchestrator),
-- and stops or pauses sandboxes whose time is over.
--
-- Parts and files:
-- - Scheduler/: internal/scheduler/scheduler.go. Types has the structs; Monad the methods under the
--   lock; Select `selectNode`; Ops `NewScheduler`, `RegisterNode`, `UnregisterNode`, `Schedule`,
--   `Stop`, `Pause`, `Resume`, `ExtendTimeout` and the reads; Expiry `checkExpirations`. Steps is the
--   scheduler as a transition system, with one step for each method; Books, Accounts, Balance, Room
--   and Capacity are about the figures of the nodes; Lifecycle about the states of the sandboxes;
--   Errors and Outcomes about failed and granted calls; Sweep, Ticks and Clean about a tick;
--   RoundTrip about `Schedule` and `Stop`. Examples and Tests are a cluster of one node.
-- - Orchestrator/: internal/orchestrator and internal/scheduler/orchestrator_client.go. Types has the
--   structs and the interface of runtimes of service.go, Agent its methods; Docker and its children
--   are runtime_docker.go, with Docker/Methods for what runs commands, Docker/Status for the reads, and
--   Docker/Ports and Docker/Safety about the ports. Client is `OrchestratorClient`, Client/Cases its
--   case analysis, Client/Routes and Client/Agreement the scheduler over it; Reports is the agent
--   over docker; Edge is edge_controller.go, Exec the relay of the outputs of a command. DockerSdk is
--   runtime_docker_sdk.go. Firecracker and its children are runtime_firecracker.go: Search is
--   `contains`, Units the files that are written, Hosts /etc/hosts, Inject `injectEnvdIntoRootfs`,
--   Rootfs `prepareRootfs`, Wait `waitForEnvd`, Methods what changes sandboxes, Status the reads, Exec
--   `ExecCommand`; Mounts is about the mount table, Clean about failed creations, Reports about the
--   agent over it, Examples and Tests are a host.
-- - TemplateBuild/: internal/templatebuild/service.go. Types has the structs and the machine; Log
--   `addLog`; Steps `executeStep` and the loop over the steps; Artifacts the export; Rootfs
--   `createFirecrackerRootfs`; Process `failBuild` and `processBuild`; Service the queue, the map of
--   builds and the workers. Process/Keeps, Steps, Artifacts and Image are about what a build keeps,
--   Process/Laws and Rows about its end, Service/Laws and Worker about the service.
-- - Db/: internal/db. Types and Store are the records and the interface of store.go; Store/Table is
--   what the API relies on; Memory and its children are memory.go, method by method; Memory/Implements
--   fills the interface and its laws; Memory/Filter says what the filter of sandboxes asks for, and
--   Memory/Lookup is about searches. Supabase and its children are supabase.go, Supabase/Rows about
--   its rows.
-- - Auth: internal/auth/middleware.go, which cmd/api/main.go puts in front of the handlers.
-- - Api/: internal/api. Models has the bodies of models.go, Records the records of store.go, Convert
--   the conversions of store.go and handlers.go; Store, Store/Templates and Store/Nodes are the
--   methods of store.go; Handlers, Handlers/Create and Handlers/Methods are sandbox.go, and
--   Handlers/Nodes the handlers of nodes in handlers.go. Bodies and Handlers/Templates are
--   the bodies and handlers of templates, of models.go and template.go; Templates/Flow, Poll and
--   Build are about requests to start a build, polls for its log, and a build from request to end. Rows,
--   Agreement, Steps, InStep and Rollback hold the proofs, over any database that is a table and any scheduler.
-- - Envd/: pkg/envd. Process is the table of processes of process/service.go, Process/Index its
--   invariant; Filesystem is filesystem/service.go, Filesystem/Depth about its walk.
-- - Prelude/: tests, lists, 64-bit words, integers, time, Go's maps, texts, actions with
--   errors, and byte slices.
--
-- How the code is read:
-- - An `int`, `int64` or `time.Duration` is its 64-bit pattern, with the wrap of each operation
--   written out; an instant is an integer count of nanoseconds.
-- - A map is an association list without a double key. The order of each `range` over a map is an
--   argument, and so is each reading of the clock and each new UUID.
-- - A pointer that a map holds is the value behind it: no code writes through a pointer it got back.
-- - float64 is an interface with two IEEE 754 facts on `>`, that hold with NaN too.
-- - `NodeOperations` is an interface with a state of its own, which each call may change, also where
--   it fails. A nil interface or pointer is none.
-- - A method of the scheduler or of the store in memory holds its lock from start to end, and is one
--   step. `checkExpirations` frees its lock between its calls, and others may act there. A handler
--   runs to its end before the next request is served; what it does in a goroutine of its own is left
--   in the state as a pending call.
-- - `Step` asks two things of the callers: a node is registered with figures that fit the sandboxes on
--   it, and an ID that is scheduled is not in use.
-- - Of the system nothing is asked about the IDs of processes: one may be given out again while the
--   table of the agent still has it.
-- - Of mount and umount it is asked that one that returns no error does what it is for, and that one
--   that returns an error leaves at most its own mount point behind, which then counts as stale.
-- - Commands are a shell over a state of its own: what a command prints and whether it fails is
--   arbitrary. Clock, files and commands of a template build are a machine over such a state.
-- - The loop that prints a number takes 10 or 20 as fuel, enough for the digits of 32 or 64 bits.
-- - The operating system and the SDK of Firecracker, and that of Docker, are records of calls over a
--   state of their own, and what they answer is arbitrary. The wait for envd takes as fuel the number
--   of its rounds; 61 are enough for its minute.
-- - The walk of directories takes as fuel the number of levels; with a depth, that many are enough.
-- - All other loops are over lists and end by structural recursion.
--
-- Not modelled: HTTP, JSON, paths and query strings, which are decoded before; the SQL
-- store, whose behaviour is that of a service outside the repository; Docker and Firecracker
-- themselves; the generated protocol code; of the agent in
-- the sandbox (pkg/envd) all but the table of processes and the service of files.
pub mod Prelude
pub mod Scheduler
pub mod Orchestrator
pub mod TemplateBuild
pub mod Db
pub mod Api
pub mod Auth
pub mod Envd
