-- ===== src/Lib.antt =====
-- A service that records incidents on a map, answers location checks of users, and tells a webhook of
-- every check that found an incident.
--
-- The parts, and how they work together. The application service (internal/app/incidents) validates
-- a request and calls the repositories. `CheckAndRecord` looks for the incidents around a point and
-- then, in one transaction, stores the check, its links to the incidents and an event in the table
-- webhook_outbox. The relay (internal/workers/outboxrelay) claims due events in one transaction,
-- pushes them to a Redis stream, and marks them in a second transaction. The webhook worker
-- (internal/workers/webhook) reads the stream and posts each event to its target, guarded by a key
-- in Redis. Over HTTP (internal/http) the handlers read a request and call the service, which has the
-- repository with a cache of lists in front of it; the middleware answers for errors and panics.
--
-- Files:
--   Prelude    names of the libraries, tests, lists, signed integers and text that all parts share
--   Errs       internal/errs/errs.go: E, Wrap, As and Error on a tree of errors (GoError); Errs/Laws
--              says what a reader of a wrapped error sees
--   Domain     internal/domain/incidents: the types and their Validate methods; Domain/Floats is
--              float64, Domain/Validation says what is accepted and what is reported
--   World      the state outside of the program (tables, id sequences, Redis stream and keys, the
--              requests that reached the webhook) and Env, the answers of the outside; World/Exec is
--              Go's (value, error) results, with panics
--   Db         statements through a pool or a transaction, internal/platform/db/uow/uow.go, and in
--              Db/Errs internal/platform/db/errs/errs.go; Db/Atomicity, Db/Keeps and Db/Inversion
--              are the laws of transactions, Db/Counts is about the order of calls
--   Incidents  internal/platform/db/incidents/incidents.go, rows in Incidents/Rows; Incidents/Lookup and
--              Incidents/Lifecycle are about one incident, Incidents/Nearby about the search,
--              Incidents/Order and Incidents/Pages about lists
--   Outbox     internal/platform/db/outbox/outbox.go
--   Queue      internal/platform/redis/queue/queue.go
--   Ports      the interfaces of internal/app/incidents/service.go, which TxRunner fills over the
--              database (internal/platform/db/txrunner/incidents.go)
--   Service    internal/app/incidents/service.go; Service/Checks, Service/Atomicity and Service/Order are
--              about CheckAndRecord, Service/RoundTrips about requests for one incident
--   Relay      internal/workers/outboxrelay/outboxrelay.go; Relay/Stages and Relay/Trace are about
--              rounds with any failures, Relay/Rounds about rounds without one, Relay/Failure and
--              Relay/Least about a failed push, Relay/Claims and Relay/Progress about the rounds that a backlog takes,
--              Relay/Backoff about the delay
--   Webhook    internal/workers/webhook/worker.go; Webhook/Delivery is about what is sent,
--              Webhook/Loop and Webhook/Once about the loop of Run, Webhook/Progress about that loop
--              without a failure
--   Cache      internal/platform/redis/cache/incidents.go; Cache/Pages says when the cache is coherent,
--              Cache/Lists is about one list, Cache/History about one write, Cache/Refinement about any
--              run of calls, Cache/Writes about writes while Redis fails
--   Middleware internal/platform/middleware/error.go and apikey.go; Middleware/Responses is about what
--              a client is told
--   Handlers   internal/http/handlers/incidents.go, and in Handlers/System system.go; Handlers/Health is
--              about the status of the health check
--   Router     internal/http/router.go, with recovery.go, requestid.go and the level of logger.go in
--              internal/platform/middleware: what is answered to a request; Router/Told and
--              Router/Failures are about errors and panics, Router/Keys about the API key,
--              Router/Health about the health check, Router/Steps and Router/RoundTrips about an
--              incident that is created and read, Router/Checks about location checks
--   Logger     internal/platform/logger; Logger/Lines is about what a call writes
--   Db/Status  internal/platform/db/sqldb.go; Db/Status/Waiting is about the end of StatusCheck,
--              Db/Status/Keeps about what it leaves alone, Db/Status/Pools about what Open leaves open
--   Health     internal/platform/db/health/health.go and internal/platform/redis/health/health.go
--   Config     internal/platform/config/config.go
--   Server     internal/http/server.go
--   Main       cmd/api/main.go: start-up, the wait for a signal and shut-down, as what is seen of them in
--              order; Main/Settling and Main/Resources are about what is opened and closed, Main/Workers
--              and Main/Stopping about how the program ends
--   Stub       cmd/webhook-test/main.go; Stub/Delivery is about the worker against it
--   System     cmd/api/main.go: the router that it builds, and the requests, relays and the worker as
--              steps that interleave; System/Invariant says what holds at all times, System/Growth and System/Requests
--              what requests leave alone, System/Effects what the other steps do, System/Soundness and
--              System/Runs that the steps keep the invariant, and System/Delivery follows an event
--              from a request to the webhook
--   Tests      sample data, and the theorems at concrete inputs
--
-- How the code is read. A function that returns (value, error) is a function from a World to a Result
-- and the World after it. Every call of the outside takes the next answer of `Env.reply`: it is
-- carried out, or it fails, in which case it may have been carried out all the same, or in part. The
-- theorems hold for all answers unless they name the environment in which no call fails. A Go method
-- keeps its name in snake case; the constant `op` of a method is the text in its definition. Loops
-- run over lists, but for the loop of StatusCheck, which takes fuel: with eleven rounds it returns,
-- since its attempts are at least a tenth of a second apart and its deadline is a second away. In
-- `postgres_ping` fuel that runs out is a panic, which is not reached under the same condition.
--
-- The SQL texts are not executed: each is a function on the rows of its table, written after the text
-- and the schema in migrations/. Rows stand in the order of insertion, which is that of their ids, and
-- RETURNING gives them in that order; PostgreSQL does not promise
-- the latter, and what is shown of a round's items in the stream is shown up to their order. Transactions are taken one at a time; the rows that another one
-- has locked at a call are `Env.locked`. After a refused statement a transaction refuses all others.
--
-- Numbers and text. Times are numbers of nanoseconds. Ids that the database gives are natural
-- numbers; those that a caller gives, radii, limits and offsets are signed, and radii and ids are
-- taken to fit their columns. A float64 is the 64 bits of its IEEE 754 word; its comparison is exact.
-- Text is a sequence of code points. PostGIS distances, JSON and the status codes of the webhook are
-- parameters in Env.
--
-- Clients that try again. go-redis sends a command or a pipeline again when its reply is lost, also if
-- Redis has carried it out: `Env.lost_tries` says so for the worker's SETNX. An XREADGROUP that is sent again is a read that fails, and the next iteration. net/http
-- sends a POST with an Idempotency-Key again after a network error on a connection that was used
-- before, and for a redirect with status 307 or 308: `Env.resends` counts these. A redirect with another
-- status becomes a GET without a body, which is no request of the webhook; `Env.http_status` is the
-- status of the last answer. The environment in which no call fails is one in which none is sent again.
--
-- The cache: a page's key is its version, limit and offset, and the version key holds a number, since
-- the program stores nothing else in it. A call of Redis that fails may have been carried out. That
-- the cache answers as the table does is shown for runs in which no call fails.
--
-- Requests: what gin and strconv read in a body or a parameter is given by functions (Gin), so a
-- theorem about a request holds for all ways to read it. A handler answers once or records one error.
--
-- Start-up and shut-down: what is seen of `main` is the list of its effects, in order, with how it
-- ends: it returns, waits for ever, or a panic ends it. The line about the start of the server, which a
-- goroutine writes, stands before the start. Signals, the end of the server and how often the workers
-- go round before they look at their context are given (Host).
--
-- Not modelled: what net/http does with a connection, and gin's redirections; a time to live of pages
-- below zero, which Redis refuses; how envconfig reads the environment; timers, and the deadlines of
-- contexts: when a relay ticks and when a context ends is given; steps that interleave within a
-- request or within the handling of a message; commands of the cache, acknowledgements and pipelines of the
-- relay that go-redis sends again (an INCR sent twice raises the version twice, and a pipeline sent
-- twice adds its items twice); the encoding of JSON and of log lines, and what
-- handlers log. The texts of errors that libraries raise are stand-ins.
pub mod Prelude
pub mod Errs
pub mod Domain
pub mod World
pub mod Db
pub mod Outbox
pub mod Queue
pub mod Relay
pub mod Incidents
pub mod Ports
pub mod TxRunner
pub mod Service
pub mod Webhook
pub mod Cache
pub mod Middleware
pub mod Handlers
pub mod Logger
pub mod Router
pub mod Tests
pub mod System
pub mod Config
pub mod Health
pub mod Main
pub mod Stub
pub mod Server
