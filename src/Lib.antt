-- ===== src/Lib.antt =====
-- A verification library for csfleet, the orchestrator of a fleet of game servers on one host.
--
-- The program has seven parts that this library models. The proxy (orchestration/proxy) queues the
-- first packet of every new UDP flow to user space, assigns its client to a backend, and marks the
-- packet, so that the kernel rewrites its destination. The store (orchestration/database) keeps the
-- desired servers and clusters, their plugins, configs and variables, by scope. The fleet
-- (orchestration/fleet) runs one worker per server, which reads the store and starts or stops the
-- server's container, calling the proxy in the order that keeps clients off dead instances. The HTTP
-- API (orchestration/api) writes what its users ask for to the store and wakes the fleet. The plugins
-- (orchestration/plugin) are put in an order of installation before a server starts, and each is then
-- laid into the server's overlay. What they need is fetched through a cache on disk, unpacked and copied
-- (orchestration/internal/install). Before all of it, the provisioning (orchestration/provision) brings
-- the shared base of the game and its mods up to date.
--
-- Proxy
--   Proxy/Router: orchestration/proxy/router.go. `Router` is the router struct, a function per map;
--     add_backend, remove_backend, unmanage, route and sweep are its methods, each one step under the
--     mutex. uint64 and uint32 keep their low bits. Its child modules are the proofs.
--   Proxy/Packet: parseUDPv4 of packet.go on a list of bytes; a read out of range is a panic, `none`.
--   Proxy/Service: AddBackend and the Remove entrypoints of proxy.go with the element operations of
--     nftables.go. The kernel's map is the parameter Proxy/Kernel, which states what adding and
--     deleting an element does. netip.ParseAddr is an argument. `opMu` keeps the entrypoints apart, but
--     packets and sweeps come in the middle of them: Coherence is about whole calls, Moments names the
--     points inside of one, and Agreement is about both.
--   Proxy/Handler: onPacket of handler.go. Proxy/Conntrack: FlushConntrack of conntrack.go.
--   Proxy/Lifecycle: Start, Stop and teardownKernel of proxy.go over the kernel's answers.
-- Database
--   Database/Rows: the row types of types.go; hours, a float64 that FLOAT columns round,
--     are a parameter.
--   Database/Resolve and Database/Env: resolve.go.
--   Database/Sets and Database/Scopes: plugins.go and configs.go, the same code over two pairs of
--     tables. A transaction is a list of statements; any of its calls may fail, and an error rolls it
--     back. The collation's equality and ORDER BY are a parameter.
--   Database/Tables and Database/Crud: crud.go, with the keys, checks and triggers of schema.go.
--   Database/Catalog: manifests and config files of crud.go. Database/Users: users.go.
-- Fleet
--   Fleet/Backoff and Fleet/Worker: worker.go. A worker is a record, and the calls that it makes
--     outward are its history; what the store, the proxy, docker and the clock answer is the parameter
--     Fleet/Services, where an answer may depend on the whole history.
--   Fleet/Manager: manager.go, with the wake-up of events.go. Fleet/Routing: the worker's calls played
--     on the router of Proxy/Router.
-- Install
--   Install/Cache: cache.go over a directory of blobs and `.meta` files. The network, the operating
--     system and the clock are the parameter `System`. Recency is about evictions, Presence and Outages
--     about fetches.
--   Install/Paths, Install/Disk and Install/Trees: files.go. A path is a list of components, a disk a
--     function from paths to entries, without symbolic links; what is read is a list of entries or a
--     tree. Faults are the parameter of the calls that fail. Inside and Unpacking are about where files
--     are written.
-- Plugin
--   Plugin/Order: resolve.go. The loader, the manifest parser and the orders in which Go ranges over a
--     map are parameters. Plugin/Order/Discovery is about the walk, Drain and Topology about the sort.
--   Plugin/Apply: the stages of apply.go. Plugin/Glob: globToRegexp, and what the compiled expression
--     matches. Plugin/Ignore: applyIgnore. Plugin/Templates: envReplacer and templates, for any order of
--     the variables. TOML, GitHub, downloads, the extraction of archives and filepath.Glob are the
--     parameter `Tools`; the directories of local sources are apart from the rest of the disk.
-- Provision
--   Provision: provision.go, game.go, mods.go, receipt.go and image.go. `Base` is what stands in base/,
--     `Host` what docker, SteamCMD, the network and the file system answer. Receipts is about whole
--     runs, Interrupted about addons/ that a failed run has left half laid.
-- Api
--   Api/Http: the shared helpers and the gate of api.go, requireAuth of auth.go. Api/Requests: types.go.
--   Api/Servers, Api/Clusters and Api/Catalog: servers.go, clusters.go and catalog.go, a function for
--     each handler from the decoded body and the tables to the tables and the response. Any query or
--     transaction of a handler may fail. mgr.Status is an argument.
--   Api/Accounts: auth.go, over Database/Users. bcrypt, JWT and the text functions are parameters.
--   Api/Events: the hub of sse.go, whose channels are slots, and its snapshot.
--   Api/Reachable and Api/Variables: sequences of requests.
--
-- Times and durations are natural numbers of nanoseconds. The two loops of resolve.go run on fuel: the
-- sort on the number of nodes, the walk on the number of roots and of requirements in the catalog, and
-- both are shown to be enough. Every other loop recurses on a list or on a number that it counts down
-- (the game's update on its 4 attempts), and the worker's endless loop is a list of its wakes. Theorems
-- about generations assume fewer than 2^32 or 2^64 additions, the widths of the mark and the counter.
--
-- Not modelled: the routing of requests, the writing of event streams, static files and host metrics of
-- the API; the installation of nft and iptables rules, docker and overlay mounts, which are mostly I/O;
-- what runs in SteamCMD's container; tar archives, whose symbolic links a disk here does not have; the
-- joining of concurrent fetches; the order in which lists of rows are read; log lines; the web
-- interface.
pub mod Prelude
pub mod Proxy
pub mod Database
pub mod Fleet
pub mod Install
pub mod Plugin
pub mod Provision
pub mod Api
