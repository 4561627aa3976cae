-- ===== src/Lib.antt =====
-- The NVIDIA API gateway: a server that answers OpenAI, Claude and Gemini requests over a pool of
-- keys for one upstream service. This library models the parts of it that decide: which key a request
-- gets, what a failure of the upstream service means, when a request is tried again, what it is
-- charged, and what is kept between requests. The program is written in Go; its code stands under pkg/.
--
-- Parts and files (paths from the repository's root):
-- - Scheduler: the key scheduler without a Redis client (pkg/scheduler/redis.go). The state is the
--   record Scheduler with the active list and the maps of cooling entries, dead keys and requests in
--   use; one function for each method: NewScheduler, AddKey, AcquireKey, TryAcquireSpecificKey,
--   ReleaseKey, MarkCooling, MarkDead, Reset, Stats and CleanupExpired. Scheduler/Trace has the runs of
--   calls from a new scheduler.
-- - Redis: the same scheduler with a client (pkg/scheduler/redis.go). The server is the record Redis of its
--   commands with what its documentation says of them; the three Lua scripts are functions on it.
--   Redis/Agreement relates a server to the state of Scheduler, and Redis/Runs runs both side by side.
-- - Disk: the data files (pkg/db/db.go, from isAllNUL to writeDataFile), every system call of which may
--   fail. Disk/Recovery has the crash of the machine, which may undo what no sync of the
--   directory has kept. Store: the store with its normal form, ReadStore and
--   UpdateStore over the cached copy and the data files (pkg/db/db.go). It writes through Disk.
-- - MasterKeys: the gateway's own keys, as an administrator makes, changes, replaces and deletes them
--   (pkg/gateway/admin_master_keys.go): mutators of the store, and the handlers that give them to
--   UpdateStore of Store. MasterKeys/Steps runs them, MasterKeys/Revocation joins them with Access.
-- - Models/Cores: the normal form of core profiles (pkg/models/core_profiles.go).
-- - Models/Config: SystemConfig, DefaultSystemConfig and NormalizeSystemConfig; Models/Proxies: the normal
--   forms of proxy sources and schedule times (pkg/models/models.go).
-- - Upstream/Policy: what a failure means and how often it is tried again
--   (pkg/gateway/upstream_error_policy.go). Upstream/Guard: which answers are empty
--   (pkg/gateway/stream_guard.go). Upstream/Request: one request with one key,
--   executeUpstreamJSONRequest (pkg/gateway/proxy.go).
-- - Upstream/Prefetch: the opening of a streamed answer, which is read until it says something
--   (pkg/gateway/upstream_attempt.go, pkg/gateway/stream_guard.go).
-- - Chat: one chat request without a stream over all keys, executeOpenAINonStream (pkg/gateway/proxy.go).
--   It calls Upstream.Request for each attempt.
-- - Queue: the wait for a key, acquireKeyWithQueue (pkg/gateway/proxy.go), over the scheduler that each
--   of its rounds sees.
-- - Sessions/Responses: the response store (pkg/gateway/responses_store.go). Sessions/Affinity: the keys
--   that conversations are bound to (pkg/gateway/upstream_affinity.go, and two methods of proxy.go).
-- - Access: who may use the gateway and how much, MasterAuthMiddleware and UsageTracker
--   (pkg/middleware/auth.go, pkg/middleware/usage.go).
-- - Pool: the records of proxy tests, the order of proxies by health and their assignment to keys
--   (pkg/gateway/proxy_test_history.go, pkg/gateway/proxy_grouping.go).
-- - Drain: the reading of one streamed answer with its goroutine, drainOpenAIChunks
--   (pkg/gateway/stream_drain.go), as a step relation.
-- - KeyStore: the upstream keys of the store, how LoadActiveKeys brings them into the scheduler, and the
--   updates of statuses and quotas (pkg/gateway/loader.go, pkg/gateway/status.go).
-- - Json: decoded JSON values. Prelude: texts, integers, maps and lists. The library's names come through
--   Prelude.
--
-- How the code is read:
-- - A text is the list of its code points, and bodies are texts. strings.ToLower maps ASCII letters only,
--   and strings.TrimSpace removes the spaces of unicode.IsSpace.
-- - Go's int is an integer without bounds: counters and times stay far from the ends of an int64. A
--   status and a length are natural numbers. The scheduler's float weights are whole numbers.
-- - Time is an argument: an instant in nanoseconds for each reading of the clock. A mutex makes a method
--   one step.
-- - A Go map is an association list; a loop that deletes from a map is a filter.
-- - What another program gives is an argument, independent of the others: JSON encoding and decoding, the failures of system calls,
--   the answers of the upstream service to each attempt, whether a pause ran to its end, the digest of a
--   body, decimal numbers. A cut pause means that the request is cancelled, and then the next attempt
--   fails; Upstream/Request/Cancelled says what follows from this.
-- - What a function does to the rest of the program, where this is no part of the model, is the list of its
--   actions or events in order.
-- - Loops run on their list or on the number of attempts left, which the budgets of the configuration fix;
--   no fuel runs out. A panic is none. The loops that wait for something, RotateMasterKey's and that of the
--   opening of a stream, run on the list of what they find, and give none while they go on; the theorems on
--   them say when they end.
-- - A copy of the store shares nothing with it; the shallow copy, which cloneStore makes if a store cannot
--   be encoded, is taken for such a copy.
--
-- Not modelled: AddKey, Reset, Stats and CleanupExpired with a Redis client; the creation of the
-- directory of the store and the migrations of older files, which only move files; the translators of
-- streams; the translation of requests and answers between the protocols; the health checks and the Xray
-- processes; the import of proxies and cores; the admin pages other than those of the gateway's own keys;
-- the server's routes; and the debug headers.
pub mod Prelude
pub mod Scheduler
pub mod Models
pub mod Json
pub mod Upstream
pub mod Sessions
pub mod Chat
pub mod Pool
pub mod Access
pub mod Drain
pub mod KeyStore
pub mod MasterKeys
pub mod Queue
pub mod Redis
pub mod Disk
pub mod Store
