-- ===== src/Lib.antt =====
-- goindex: a Usenet indexer that scans newsgroups over NNTP, groups article parts and serves releases.
--
-- This library models the parts of the indexer that decide by themselves what to do, and leaves the
-- sockets, the SQL and the web services outside. A Go file is modelled by the file or folder named
-- here, with a record for a struct, a data type for an enumeration, and one function for a method; a
-- method that changes its receiver returns the new one. A lock that a method holds throughout makes it
-- one step.
--
-- Base: names of the libraries passed on, Boolean tests on native numbers, lists measured by them,
--   Go's int64 and its maps with string keys; in Base/Bytes the functions of Go's strings package on
--   bytes, in Base/History a bounded history.
-- Nntp/Errors (internal/nntp/errors.go): errors as trees of wrapped and joined causes; isConnFatal,
--   classifyError, IsPermanent and isUnrecognized.
-- Nntp/Circuit (internal/nntp/circuit.go): the circuit breaker of a server. allow, recordSuccess,
--   recordFailure, backoffCooldown and snapshot; the clock is an argument.
-- Nntp/Semaphore (internal/nntp/semaphore.go): the counters of the semaphore, and a step relation of
--   callers that look at them, sleep, are woken and give up, and of the watchers of their contexts, with
--   releases and resizes between.
-- Nntp/Pool (internal/nntp/pool.go): connections handed out and taken back under the semaphore, and
--   withConn with its retries. What the dialer, the server and the context answer is a record.
-- Nntp/Overview, Nntp/Conn (internal/nntp/conn.go): the parsing of a server's lines, and the commands of
--   a connection over a wire that the calls step through.
-- Nntp/Failover (internal/nntp/failover.go): servers in priority order, each with a pool and a
--   breaker; run asks them in turn.
-- Auth/RateLimit (internal/auth/ratelimit.go): fixed windows of requests by key.
-- Auth/KeyCache (internal/auth/apikeycache.go): a bounded cache of API keys; which entry Go's map
--   iteration evicts is an argument.
-- Auth/Service (internal/auth/service.go): logins, session tokens and API keys over the cache and the
--   limiter. Auth/Middleware (internal/auth/middleware.go): the gates of sessions, administrators and
--   keys, around a handler.
-- Server/Budget (internal/server/budget.go): how many workers share the connections.
-- Scanner/Ingest, Scanner/Forward, Scanner/Backfill (internal/scanner/scanner.go): ingestRangeTracked,
--   ScanForward and ScanBackfill. A pass is the list of what it does outside, batches stored and
--   watermarks persisted, with its result and how it ended.
-- Logbuf (internal/logbuf/logbuf.go): the ring of log entries, Recent, and the live subscribers.
-- Postprocess/Yenc (internal/postprocess/yenc.go): the yEnc decoder over the lines of a body.
-- Assembler (internal/assembler/assembler.go): the batches of Assemble with their retries, settling and
--   ageing out, over a world like that of Reassemble.
-- Reassemble (internal/reassemble/reassemble.go): Plan; in Reassemble/Run the retries of a batch and
--   Run over a store that is a world the calls step through; in Reassemble/Apply what
--   ApplyReparse (internal/store/reassemble.go) leaves of the parts.
-- Worker (internal/worker/worker.go and scanscheduler.go): in ErrorLog the error history, in Schedule the
--   intervals, in Jobs the tracked jobs and their cancellation, in Triggers the queues of manual requests
--   and the backfill that yields to forward passes, in Stages what runs and the progress of a scan by its
--   workers, in Passes the five passes over a pipeline of stages.
-- Store (internal/store): in Jobs the row of a job through its life (jobs.go), in GroupHealth the
--   classification of a group (grouphealth.go), in Backoff the delay of a retry (postprocess.go).
-- Notify (internal/notify/notify.go): the queue of events, the window of deduplication, and the delivery
--   to webhooks with retries.
-- Search (internal/search/search.go): the search with a second backend to fall back on, and Reindex.
-- Config (internal/config/config.go): Validate.
-- Enrich (internal/enrich/enrich.go): one pass that asks the metadata providers about releases.
-- Release (internal/release/release.go): Build, with the naming of releases as a parameter.
-- YencHeader (internal/yenc/header.go): the yEnc line that tells the shape of a post.
-- Yencverify (internal/yencverify/yencverify.go): the passes that look up that line for articles and
--   releases.
-- Maintenance (internal/maintenance/maintenance.go): one run of a housekeeping task.
--
-- The failover pool owns pools and breakers, a pool owns a semaphore, and both classify failures by
-- Nntp/Errors. The scanner calls the failover pool through its Source interface, of which a pass sees
-- only the answers, round by round. The service of auth owns the cache and the limiter; the middleware
-- calls the service. The worker's jobs and the maintenance tasks keep their rows in the table of
-- Store/Jobs, and a maintenance task announces its outcome to Notify.
--
-- Bounds. Numbers that Go keeps in int and int64 and that count things are natural numbers; options
-- that may be negative are integers; the breaker's durations wrap at 64 bits. The loops of the scanner
-- run on fuel, one more than the articles of the region, and their theorems show that it is never used
-- up. The retries of the pool and of the reassembler, and the tour of the failover pool, are recursions
-- on the source's own bounds; the loop of the assembler has fuel for every round below its cap, and
-- takes fuel from outside where it has none.
--
-- The drain of Worker/Triggers that yields to forward passes takes fuel from outside, one more than the
-- forward passes that become due; Reindex takes fuel for its pages; body_header reads eight lines, as
-- the source does.
--
-- Not modelled: the SQL of internal/store and internal/search/opensearch.go; internal/api,
-- internal/metrics and internal/metadata, which call other services or write HTTP; the wiring in
-- internal/server; the loading of internal/config; dialLib of internal/nntp/conn.go; the signing of
-- tokens and passwords, which are parameters of Auth/Service; the goroutine loops and tickers of
-- internal/worker, internal/maintenance and internal/notify; internal/scanner/subject.go and
-- the naming of internal/release, which rest on regular expressions (the subject parser is a parameter of
-- Scanner/Ingest and Reassemble); internal/nzb; the slog handlers of internal/logbuf; the web interface.
pub mod Base
pub mod Nntp
pub mod Auth
pub mod Server
pub mod Scanner
pub mod Logbuf
pub mod Postprocess
pub mod Reassemble
pub mod Assembler
pub mod Worker
pub mod Store
pub mod Notify
pub mod Search
pub mod Config
pub mod Enrich
pub mod Maintenance
pub mod Release
pub mod YencHeader
pub mod Yencverify
