-- ===== src/Lib.antt =====
-- Verification of pv-snapshotter, a containerd proxy snapshotter. It wraps the native overlay
-- snapshotter: for a pod with an upperdir annotation it moves the writable directories of the
-- container's overlay mount to a volume, and with --share-overlayfs-lowers it borrows image layers
-- of the host's overlayfs snapshotter and pins them with leases.
--
-- How a call runs. The snapshotter (pkg/containerd/snapshotter/service.go) answers every gRPC call
-- with the native snapshotter's answer. Mounts asks the resolver
-- (pkg/containerd/snapshotter/resolver.go) for the pod's path, checks that a volume is mounted
-- there and rewrites the mount options (pkg/containerd/snapshotter/mount.go). Prepare pins the
-- parent layer, Remove releases the pins, Stat materialises a missing layer as a reference snapshot
-- whose directory is a symbolic link, and the HTTP handlers list, delete and sweep leases; these
-- are the dedup manager's (pkg/containerd/snapshotter/dedup.go). Apart from these, the admission
-- webhook (pkg/webhook/mutating.go) prepares a pod for such a volume: it finds the pod's owner, the
-- claim that is named after it and, once this is bound, its volume, and answers with a JSON patch.
-- The config subcommand (cmd/daemon/config.go) runs beside the daemon: it waits until the daemon is
-- ready, adds the snapshotter and its runtimes to containerd's configuration (pkg/containerd/config)
-- and restarts containerd where something was missing.
--
-- Files.
--   Base        texts as lists of bytes with the functions of package strings, maps as association
--               lists, errors and results, lists, integers
--   Exec        the state of the process: the world outside it and the three metrics of service.go;
--               a call takes the state and returns a result with the next state
--   Host        the interfaces of what the program calls: the snapshotters, the lease service, the
--               containerd client, the file system, text/template
--   Key         parseSnapshotKey of resolver.go and isChainID of dedup.go
--   Annotation  pkg/annotation/prefix.go
--   Mounts      mount.go (replaceUpperdirOptions, ensureUpperdirReady), and layerPathFromMounts and
--               upperdirFromMounts of dedup.go
--   Resolver    resolver.go, without parseSnapshotKey
--   Dedup       dedup.go: Dedup/Reference the reference snapshots, Dedup/Reference/Threads concurrent
--               calls of statWithLazyMaterialise as interleaved steps, Dedup/Leases the leases,
--               Dedup/Store what some theorems assume of the lease service, Dedup/Gauge the gauge of
--               pinned snapshots against the leases that are held, and Dedup/Removal lemmas on lists
--               of leases
--   Service     service.go: the methods of snapshotter and cleanerSnapshotter, the scrape hook, the
--               HTTP handlers; Service/Wiring is RegisterGRPCService with overlay.go, and Service/Gauge
--               the daemon's operations in any order, as steps with those of others between them, and
--               Service/Blocked a Stat that finds keys left behind
--   Webhook     pkg/webhook/mutating.go: Webhook/Owner is resolveOwner with controllerRefs and
--               ownerRefToGVR, Webhook/Claim resolvePVC, Webhook/Bound waitBound, Webhook/Patch
--               buildPatch (Webhook/Pointer the escaping of a key, and Webhook/Patch/Apply the
--               application of a JSON patch to a pod, by RFC 6901 and 6902), Webhook/Admission mutate,
--               deny and handle, Webhook/New the constructor; Webhook/Kube has the types and the
--               clients of Kubernetes
--   Config      the config subcommand: Config/Tree, Config/Snippet and Config/Patcher are
--               pkg/containerd/config/patcher.go (the searches in the parsed tree; buildSnippet and
--               what it calls; collectMissing and Apply), Config/Flags is flags.go, Config/Wait
--               wait.go, Config/Restart nsenter.go with its C constructor, and Config/Command
--               cmd/daemon/config.go
--   Daemon      cmd/daemon/main.go: the order of its steps and the deferred Close
--   Pipeline    from the annotations that the webhook writes to the path that the resolver renders
--   Flags       the flags of both commands with their defaults, from the four functions RegisterFlags,
--               and what is read of viper: Flags/Prefix what the webhook's default templates come to
--               for the resolver, Flags/Suffix the runtime classes of webhook and config command
--   Tests       a small world and a daemon over it, a small cluster, the witnesses of the
--               theorems, test runs
-- A definition has the name of the Go function that it models in snake case; the modules below a
-- component's file hold its theorems.
--
-- Conventions. The namespace that a Go context carries is an argument. An error keeps its format
-- and arguments and what it wraps; ErrNotFound is a class of errors. A run that panics returns the
-- error `panic`. An interface of Host may change the world in any way and fail at any call; what a
-- theorem needs of it is among its hypotheses (Dedup/Store and Dedup/Gauge: the documented
-- behaviour of leases.Manager, and where it is said, for which keys Stat succeeds; Service/Gauge: which
-- requests a run has, and that others leave the managed leases alone; Dedup/Reference/Blocked: how a snapshotter takes keys;
-- Webhook/Admission/Calls: one request for a call;
-- Flags/Defaults: viper answers for an unset flag with its default; Service/Wiring/Released: what opens and closes). The order in which Go runs over a map is the
-- order of the association list. A call of the dedup manager under its lock is one step,
-- except in Dedup/Reference/Threads, where it is several, with steps of others between them. A metric
-- is the series of the daemon's own node; a gauge is an integer, a counter a natural number. The
-- loop of waitBound, whose end depends on the clock, has a number of rounds, and `none` stands for
-- too few: with one round more than there are poll intervals in the timeout there are enough
-- (Webhook/Bound/Terminates), if the clock does not go back and a pause lasts as long as it is
-- asked to. So has the loop of WaitUntilReady, which the source does not bound: Config/Wait/Tries
-- says how many are enough. Every other loop is structural recursion, over a list or over the
-- rounds that the source's own bound leaves.
--
-- Not modelled: log lines; the registration of routes and of the gRPC server, and the usage texts of
-- the flags; the construction
-- of the commands (cmd/daemon); and the code of containerd, CRI, Kubernetes, go-toml and the Go
-- library, which is a parameter.
mod Base
pub mod Key
pub mod Exec
pub mod Host
pub mod Mounts
pub mod Dedup
pub mod Annotation
pub mod Resolver
pub mod Service
pub mod Webhook
pub mod Config
pub mod Daemon
pub mod Pipeline
pub mod Flags
mod Tests
