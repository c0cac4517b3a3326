-- ===== src/Lib.antt =====
-- CF Networking: policy-based networking between the containers of Cloud Foundry, and discovery of
-- their addresses by name.
--
-- The program has three parts. The policy server keeps the policies which app may reach which: its
-- handlers authenticate a request, map its JSON to policies, ask the guards whether the user may do
-- it, and call the store, which works on three SQL tables. On each cell the external networker gives
-- containers host ports out of a pool in a state file, and an agent writes iptables rules under a
-- lock. The service discovery controller keeps a table of the addresses of host names, which messages
-- register, and prunes the ones that have not been registered for a while; the DNS adapter asks it.
--
-- Which file models what:
--   Store: src/policy-server/store/store.go, with group.go in Store/Groups, destination.go in
--     Store/Destinations, policy.go in Store/Policies, the queries in Store/Reads and models.go in
--     Store/Models. Store/Tables has the tables and a transaction: a function from the rows and the
--     database's coming answers to a result and a new session. Create, Delete and CreateTag of the
--     store are `create`, `delete` and `create_tag`; Begin, Commit, Rollback and every statement may
--     be refused. Store/Tags over Store/GroupRows, Store/TagText and Store/Reads/ByGuids have the
--     theorems on one call. Store/Links reads the tables as a set of
--     links, policies without their tags: Store/DestinationRows and Store/PolicyRows find rows,
--     Store/Extending, Store/Linked, Store/Adding, Store/Pruning and Store/Removing follow a Create
--     and a Delete, Store/Runs their sequences, Store/Refusals over Store/Noticing a Create of which
--     the database refuses some calls, and Store/Reads/Listed and Store/Reads/Lifetime what All lists.
--   Api: src/policy-server/api (V1), api/api_v0 (V0) and api/api_v0_internal (Internal): the
--     validators and the mappers. The coding of JSON is a parameter.
--   Handlers: src/policy-server/handlers: the guards (Guards), the filter (Filter), the endpoints
--     (Endpoints), the authentication (Auth) and the smaller handlers (Small, with
--     src/policy-server/store/metrics_wrapper.go), with theorems in Access, Quota, Visible, Requests
--     and Measured. The UAA and the cloud controller are parameters, a record of their answers; the
--     store is a record of functions on a state. A handler's ServeHTTP is a function from a body that
--     was read, or the error of reading it, to a response and a state.
--   CloudController: src/policy-server/cc_client/client.go, which fills the handlers' record of the
--     cloud controller's answers; GetAllAppGUIDs with its pages is in CloudController/Paging, the
--     spaces of apps in CloudController/Spaces.
--   Cleaner: src/policy-server/cleaner/policy_cleaner.go.
--   PolicyClient: src/lib/policy_client/external_policy_client.go, on any world that a request
--     changes; the requests of the chunks are in PolicyClient/Chunks.
--   Chunk: src/lib/policy_client/chunker.go and the functions getChunks of the filter and the cleaner.
--   AddressTable: src/service-discovery-controller/addresstable/address_table.go; Add, Remove, Lookup
--     and a tick of the pruning are `add`, `remove_all`, `lookup_ips` and `tick`; AddressTable/Settings
--     has what an operation leaves alone.
--   Subscriber: src/service-discovery-controller/mbus/subscriber.go and the handlers of
--     routes/server.go: RunOnce, and one function for each message and each event of the connection.
--     Subscriber/Steps is the relation of the states that these reach, Subscriber/Registered follows
--     an address from its registration to a lookup.
--   DnsAdapter: src/bosh-dns-adapter/sdcclient/service_discovery_client.go and the handler of
--     src/bosh-dns-adapter/main.go, with theorems in DnsAdapter/Resolution.
--   UaaClient: src/policy-server/uaa_client/client.go; UaaClient/Tokens puts it under the authentication.
--   Routes: PartitionRange of src/route_populator/runner/runner.go and the loops of
--     publisher/publisher.go, with a theorem in Routes/Partition.
--   PortAllocator: src/garden-external-networker/port_allocator and
--     src/lib/serial/file_serializer.go; AllocatePort and ReleaseAllPorts are `allocate_port` and
--     `release_all_ports` on the content of the state file.
--   Manager: src/garden-external-networker/manager/manager.go and cni/cni_controller.go: Up and Down
--     over the port allocator and a world of mounts, CNI plugins and rules, with theorems in
--     Manager/Ports and Manager/Lifecycle.
--   Mux: src/garden-external-networker/ipc/ipc.go, the messages that call Up and Down, with a theorem
--     over the manager in Mux/Lifetime.
--   LockedIptables: src/lib/rules/locked_iptables.go, on any world that the lock and iptables act on.
--   Rules: src/lib/rules/rules.go; the builders without a branch are in Rules/Builders,
--     Rules/NetOut and Rules/Overlay.
--   Prelude and Assoc: results with Go's wrapped errors, lists, printed numbers, and Go's maps as
--     association lists. Examples, and the modules Examples below a part: the theorems at concrete
--     inputs.
--
-- Bounds and fuel: `Chunk.slices` runs on fuel, the length of the list, which is enough since a pass
-- moves on by at least one. `read_pages` runs on fuel too, which one more than the number of pages is
-- enough of; PartitionRange has at most one round for each number from its start to its end. The search
-- for a port counts the range's capacity down as the source does, and the DNS adapter its four tries.
-- Go's int is an unbounded integer, and ids and allocated ports are natural numbers; the validator of
-- v1 keeps ports below 65536, that of v0 does not, and a tag has at most three bytes. A set that Go
-- visits in an order of its own is passed through a parameter `visit`, and the rows of a query without
-- ORDER BY through a parameter `order`, of which theorems ask only that they keep the members.
--
-- Not modelled: HTTP, JSON, SQL text and logging; transactions that run at the same time; the
-- internal policy client; the recording of metrics but for the store's; the external networker's
-- mounts, namespaces and proxy; goroutines, locks in memory and timers; the processes, their flags
-- and their TLS; test applications and packaging. A commit that the database reports as failed is
-- taken as not done.
pub mod Prelude
pub mod Assoc
pub mod Chunk
pub mod Store
pub mod Api
pub mod Handlers
pub mod UaaClient
pub mod CloudController
pub mod Cleaner
pub mod PolicyClient
pub mod AddressTable
pub mod Subscriber
pub mod DnsAdapter
pub mod Routes
pub mod PortAllocator
pub mod Manager
pub mod Mux
pub mod Rules
pub mod LockedIptables
pub mod Examples
