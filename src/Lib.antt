-- ===== src/Lib.antt =====
-- Congee is a Nostr relay in Go. A connection's messages are read (internal/relay/handler.go), pass
-- the rate limits and are dispatched to handlers. A REQ may be intercepted by plugins
-- (internal/plugin), opens a subscription (internal/relay/subscription.go) and goes to a bounded
-- queue of readers (internal/relay/readqueue.go), which answer it from the store in pages
-- (internal/relay/req_query.go) and then hand it over to live delivery. NIP-77 sessions reconcile
-- sets of events on a queue of their own (internal/relay/nip77.go). A published event passes validators
-- (internal/relay/nip17.go, nip29.go, nip42.go), is stored and is fanned out to the subscriptions
-- that match it and may see it. What goes out to a connection passes its bounded channel
-- (internal/relay/handler.go, `enqueue`). Limiters (internal/relay/limiter.go) and a count of
-- connections per address (internal/relay/ip_conn_tracker.go) guard the way in. Writes to SQLite go
-- through the channel of one writer (internal/storage/sqlitewriter/writer.go), one at a time.
-- A scheduler (internal/nip77/upstream) pulls the events that this relay lacks from other relays.
-- The settings of all of this are validated first (internal/config/config.go).
--
-- The files, against the code:
--   Prelude            shared lists, byte strings, association lists, int64 and results
--   Nostr/Event        internal/nostr/event.go: the record `Event`
--   Nostr/Filter       internal/nostr/filter.go: `Matches`, and `filtersMatch` of subscription.go
--   Nostr/Kind         internal/nostr/kinds.go: `ClassifyKind`
--   Nostr/Group        internal/nostr/nip29.go: the tags of groups
--   Nostr/Wire         internal/nostr/message.go: the messages as data
--   Storage            internal/storage/store.go: the reads of `EventStore`, as a record of functions
--   Storage/Events     internal/storage/sqlevent/store.go: saving, deleting and the reads of NIP-29 on
--                      the rows of the table; Rows holds the proofs
--   Storage/Query      internal/storage/sqlevent/store.go: `QueryEvents`; Live and Reached hold
--                      the proofs
--   Storage/Writer     internal/storage/sqlitewriter/writer.go: `executeTask`; Queue is the channel
--                      with its callers, the loop and `Close`; Answers, Attempts, Served and Late
--                      hold the proofs
--   Config             internal/config/config_types.go, nip77.go: the settings that the code reads
--   Config/Settings    internal/config/config_types.go: the settings that `Validate` looks at
--   Config/Validate    internal/config/config.go, nip77.go, plugins.go: `Validate`; Accepted holds
--                      the proofs
--   Relay/Outbox       internal/relay/handler.go, conn_shutdown.go: `enqueue`, `initiateShutdown`
--   Relay/Limiter      internal/relay/limiter.go; Window and Bytes hold the proofs
--   Relay/Ip           internal/relay/ip_conn_tracker.go
--   Relay/Subs         internal/relay/subscription.go: `Add`, `Remove` and the reads of a manager
--   Relay/Fanout       internal/relay/subscription.go: `Broadcast`, `FinishSnapshot`
--   Relay/Query        internal/relay/req_query.go
--   Relay/Auth         internal/relay/nip42.go; Keys and Skew hold the proofs
--   Relay/GiftWrap     internal/relay/nip17.go
--   Relay/Group        internal/relay/nip29.go: validators and `EventVisibleToSubscription`
--   Relay/Group/Hook   internal/relay/nip29.go: `nip29PostStoreHook`; Members, Kept and Answered hold
--                      the proofs
--   Relay/Idle         internal/relay/conn_idle.go
--   Relay/Registry     internal/relay/registry.go: `Dispatch`
--   Relay/Hooks        internal/relay/hooks.go: `HookChain`
--   Relay/Reader       internal/relay/readqueue.go: a reader's job, its pages and its two endings;
--                      Replies, Ending, Drains, Termination and Worker hold the proofs
--   Relay/Nip01        internal/relay/nip01.go, middleware.go: EVENT and CLOSE; Req is `handleREQ`,
--                      Publish the post hooks; Snapshot, Queued, Failures, Replied, Refused and
--                      Answers hold the proofs
--   Relay/Neg          internal/relay/nip77.go, neg_sessions.go, negqueue.go: sessions and NEG-OPEN;
--                      Run is the queued job, NEG-MSG, NEG-CLOSE, the timer and the teardown;
--                      Sessions, Steps, Bounds and Leak hold the proofs
--   Relay/Inbound      internal/relay/handler.go: `dispatchPayload`, with conn_telemetry.go
--   Plugin/Match       internal/plugin/match.go
--   Plugin/Intercept   internal/plugin/manager.go, instance.go: `InterceptREQ`; Hydrate is hydrate.go
--   Plugin/Convert     internal/plugin/convert.go, instance.go: filters to a plugin and back;
--                      RoundTrip holds the proofs
--   Nip77/Upstream     internal/nip77/upstream/client.go, auth.go: a connection to an upstream; Sync
--                      is `pullUpstream` of scheduler.go and Scheduler its jobs and their status;
--                      Sync/Imports, Scheduler/Locks and Scheduler/Jobs hold the proofs
--   Tests              concrete data, and the theorems applied to it
--
-- State is passed explicitly: an operation takes the manager, the outboxes, a limiter or a cursor and
-- returns the new one. Each part of a method that holds a lock is a step, and Relay/Fanout/Reach has
-- the relation of all of them, so that its states are those of any interleaving; `Remove` and
-- `FinishSnapshot`, which give the lock up in between, are two or more steps. A Go map is an
-- association list, ranged over in the list's order: the source ranges over it in any order. A Go
-- string is the list of its bytes, and a nil pointer, where the code tests for it, is `none`.
--
-- Numbers: created_at and the settings are signed, subtraction on them wraps around at 64 bits
-- (`sub64`, `neg64`), and the counters of a subscription at 32 and 64 bits. The limiters' clock and
-- limits are naturals; a limit below 0 acts as 0 does. The remaining budget of a cursor is exact,
-- since a page is no longer than memory. The count of NEG sessions, an int32, is an unbounded integer:
-- a step adds or subtracts one, and a connection has far fewer sessions than 2^31.
--
-- Every loop runs over a list, but for two. `digits` prints a number on fuel that is the number's
-- successor, which is more than its digits. The page loop of a reader runs over a list of rounds: what
-- the store answers, and what is visible, at each page. It is `none` where there are more pages than
-- rounds; Relay/Reader/Termination bounds the pages by the times that are left to the cursors.
--
-- Of NIP-77, a handler, a job, a timer that fires and a teardown are one step each. The code holds
-- no lock over the test of the limit and the reservation in NEG-OPEN: Relay/Neg/Leak takes the two
-- apart.
--
-- An upstream is the list of what it sends: its messages, timeouts and failures, in order, and only
-- timeouts after them, so that every loop over its messages ends. The writer of SQLite is a relation
-- of steps of the callers, the loop and `Close`, in any order, since a `select` may take any case that
-- is ready; a driver panics only inside a task. An error of the validation is the name of its setting.
--
-- The SQL store is the list of its rows: a WHERE is a test of a row, ORDER BY and LIMIT are a sort and
-- a prefix, a transaction that fails leaves the rows as they were, and an id is the primary key. The
-- relay's handlers take the reads of the store as functions that may answer anything.
--
-- Not modelled: the clock, random challenges, the URL parser, signatures, `ParseMessage`, the
-- negentropy library, the plugins' answers, the other hooks and the store are arguments. Contexts
-- and deadlines show only as errors of the store. The JSON text of a message, logging, metrics and
-- audit are left out, as are the admin pages, the plugin processes with their queues and logs, the SQL
-- engines, the stores of Postgres and of the admin pages, and the accept and upgrade path of a connection.
pub mod Prelude
pub mod Nostr
pub mod Storage
pub mod Config
pub mod Relay
pub mod Plugin
pub mod Nip77
pub mod Tests
