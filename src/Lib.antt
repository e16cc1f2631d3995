-- ===== src/Lib.antt =====
-- Quota control: a server that keeps access keys, limits and usage of projects, a client that spends
-- quota in other services, and the HTTP middlewares of those services.
--
-- Parts and files, with paths from the repository's root:
--   * Proto/: the data types and errors of proto/quotacontrol.gen.go (Types, Errors) and the functions
--     of proto/proto.go on them: Service (ParseService, GetName), Access (ValidateOrigin,
--     ValidateService, ValidateChains, CanAccess), Limits (Validate, GetSettings, GetSpendResult),
--     Cycles (GetStart, GetEnd, SetInterval, and GetAccessCycle of internal/store/store.go). Enums has
--     the texts of the three enums.
--   * Cache/: cache.go. Keys (the keys in Redis), RedisCache (its operations, one function each), Lru
--     (LRU in front of another quota cache). The interfaces are the records of Cache. The Redis
--     client, JSON and the LRU map are parameters with laws (Redis, Codec, Memory); InMemory is a
--     server at which the laws hold.
--   * Usage/: internal/usage/usage.go, the usage that is spent and not yet reported, and SyncUsage.
--     Logged puts a log of reports and answers beside an updater.
--   * Store, Mock/: the storage interfaces of server.go, mock/mem.go, which implements them (Memory),
--     and mock/server.go (Wiring, Server).
--   * Server/: server.go. Keys (access keys), Quota (quotas, permissions), Usage (usage, status).
--   * Client/: client.go. Fetch (FetchProjectQuota, FetchKeyQuota, EnsureUsage, FetchUsage),
--     Permission (FetchPermission, CheckPermission), Spend (SpendQuota), Lifecycle (Run and Stop, as
--     steps of calls that may overlap).
--   * Rpc/: the RPC layer of proto/quotacontrol.gen.go. Server and MediaType (ServeHTTP and a handler
--     for each method), Http (doHTTPRequest), Client (a method for each), Wire (errors), Adapters
--     (server.go under the handlers, the RPC client under client.go), Versions (the webrpc header).
--     JSON and the sending of a request are parameters (Json, Codecs, HttpClient).
--   * Setup: config.go, NewClient, the client's settings, NewLimitCounter; Setup/Stack is client.go as
--     the middlewares' interface Client.
--   * Middleware/: middleware/. Verify (VerifyQuota), Usage (EnsureUsage, SpendUsage), Rate
--     (RateLimit), Gates (EnsurePermission, SetCost), Chains (ChainFromPath); the context's values are
--     the record Context.
--   * Prelude/, Time/, Exec: shared helpers, Go's times and dates, and code with a state that returns
--     a value or an error, or panics.
--   * Tests/: data and runs.
--
-- How they interact: a middleware calls the client; the client reads and fills the caches, asks the
-- server over RPC, counts spends in Redis and tracks them; SyncUsage reports the tracked usage to the
-- server, which writes it to its store; the server drops cached quotas when their keys change.
--
-- State is passed explicitly: a Go function is a function into `Exec W A`, where `W` is the world
-- behind the interfaces it calls. A nil pointer that is dereferenced is `panic`. An `int64` is an
-- integer, with sums and differences that wrap around (add64, sub64); a `uint64` is a natural number.
-- A map is an association list, and Go's iteration over it takes the order of the list. A text is a
-- list of bytes. A time is the number of nanoseconds since January 1 of year 1, in UTC.
--
-- Run and Stop: a state counts the calls at each place of their code, and a step is one of their atomic
-- operations; a sync is one step.
--
-- Bounds: `decimal` has fuel for 20 digits, which every `uint64` has at most; EnsureUsage has three
-- rounds, as in the source. All other loops are recursions on lists.
--
-- Not modelled: log lines and messages of errors beyond their chain; HTTP headers of the RPC layer but
-- the content type, the hooks OnRequest and OnError, values in contexts, the table of methods, the
-- TypeScript client and a JSON body that decodes only in part; the listener of the mock server; the
-- rate limiter of httprate and its counter in Redis; authcontrol and the matching of origins, which
-- are parameters; expiry in Redis and in the LRU map between two operations; time zones other than UTC.
pub mod Prelude
pub mod Time
pub mod Proto
pub mod Exec
pub mod Cache
pub mod Usage
pub mod Store
pub mod Mock
pub mod Server
pub mod Rpc
pub mod Setup
pub mod Client
pub mod Middleware
pub mod Tests
