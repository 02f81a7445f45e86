-- ===== src/Lib.antt =====
-- harry-performance-scraper: a process that samples Oracle databases and stores the samples in
-- PostgreSQL. This library models its logic in Go and proves what that logic promises.
--
-- The parts and how they interact. main.go reads the configuration (collector/config.go), waits for
-- leadership (ha/election.go), and starts schedulers over one set of databases
-- (collector/types.go, collector/database.go): scheduled scrapes (collector/collector.go,
-- collector/performance.go, collector/operational.go), activity sampling (collector/activity.go), dead
-- connection detection (collector/dead_connection_detection.go) and the export of alert logs (alertlog/).
-- A collector that meets a lost connection quarantines its database; detection alone brings it back.
-- Every scheduler hands a batch (collector/samples.go) with runtime telemetry (collector/runtime.go) to
-- the sink (postgresql/postgresql.go).
--
-- The files, with the code that they model:
--   Prelude, Prelude/*  names that all share, int64 with its wrap-around, dictionaries, sorting
--   Clock, Texts, Errors  Go's time, strings and errors, as far as the program uses them;
--     Errors/ZeroResult  collector/errors.go
--   Failure  isConnectionFailure of collector/database.go
--   Connection, Connection/*  the connection state of a database: quarantineLocked, beginProbe,
--     finishProbe, activate, connectionStateSample, and every interleaving of them
--   Database, Database/*  NewDatabase, WarmupConnectionPool, warmupSession, reconnect, ping,
--     quarantineConnectionFailure, the activity gate and Query of collector/database.go
--   Detection, Detection/*  collector/dead_connection_detection.go
--   Config, Config/*  the sections, getters, merge and validate of collector/config.go, and the
--     authentication modes of ocivault/ocivault.go
--   Samples, Samples/*, Status  collector/samples.go, newScrapeStatus of collector/operational.go
--   Runtime, Runtime/*  collector/runtime.go
--   Retry, Retry/*  alertlog/alert_log_retry.go
--   AlertLog, AlertLog/*  readLastMatchingLogRecord of alertlog/alertlog.go
--   Gates, Gates/*  shouldCollectOperational, shouldCollectSQLDetails of collector/
--   Counters, Counters/*  operationalDelta of collector/operational.go
--   Consumers, Consumers/*  recordSQLConsumerDeltas, takeTopSQLConsumers of collector/performance.go
--   PlanCache, PlanCache/*  uncachedSQLPlanCandidates, markSQLPlansCollected of the same file
--   Election, Election/*  Acquire, Monitor and Close of ha/election.go
--   Sink, Sink/*  the buffered runtime telemetry of postgresql/postgresql.go, through WriteSamples and
--     flushRuntime, and cleanupRetention
--   Sink/Ingest/*, Sink/Accounting/*  the counts of ingested rows of the same file, from
--     collectRepositoryIngest to writeRepositoryIngest
--   Sink/Texts, Sink/Texts/*  collectSQLTextUpdates, collectSQLCursorMetadata and
--     collectSQLPlanReferences of the same file
--   Sink/Partitions, Sink/Covered, Sink/Rows  ensureWritePartitions and what it calls, of the same file
--   Collection, Collection/*  ScrapeOperationalSamples and its queries of collector/operational.go, and
--     collector/dataguard.go
--   Profile, Profile/*  ScrapePerformanceSamples and its queries of collector/performance.go
--   Metrics, Metrics/*  collector/metrics.go, collector/cache.go, mergeMetrics of
--     collector/data_loader.go, and ScrapeMetricSamples of collector/collector.go
--   Activity, Activity/*  sampleActivity of collector/activity.go and what it calls
--   Scheduled, Scheduled/*  scrapeDatabaseSamples of collector/collector.go
--   Scenarios/*  each property at a concrete input
--
-- How it is modelled. A method under a mutex is a function from the state before to the state after; an
-- interleaving is a list of such steps. `time.Now()`, and what the Oracle driver, PostgreSQL, the file
-- system and the JSON decoder answer, are arguments. The locks of PostgreSQL are the interface
-- Election.Locks, whose laws are the documented ones. An instant is a number of nanoseconds since year 1
-- and a duration an int64; a duration in float64 seconds stands as the duration itself. A nil pointer is
-- `none`, and a text is a list of bytes where the program looks into it. Letters and white space are the
-- ASCII ones.
--
-- Loops. A loop over a slice is recursion on the list. warmupSession acquires at most 100 connections,
-- one round each. recordFailure doubles at most as often as there were failures. The chunks of
-- readLastMatchingLogRecord each hold at least one byte, so that as many rounds as the file has bytes are
-- enough, and a cleanup deletes at most five batches of 2000 rows. The loops of Acquire and Monitor run
-- as long as they are given rounds.
--
-- Not modelled: SQL texts and the rows that they return, migrations, HTTP handlers, flags and loggers,
-- the clients of the vaults and of the drivers, which are input and output; doScrape and the loading of
-- metric definitions of collector/, UpdateLog of alertlog/, and the names of partitions of postgresql/.
pub mod Prelude
pub mod Clock
pub mod Texts
pub mod Errors
pub mod Failure
pub mod Connection
pub mod Config
pub mod Database
pub mod Status
pub mod Samples
pub mod Runtime
pub mod Detection
pub mod Retry
pub mod Gates
pub mod Counters
pub mod Election
pub mod PlanCache
pub mod Consumers
pub mod AlertLog
pub mod Sink
pub mod Collection
pub mod Profile
pub mod Metrics
pub mod Scheduled
pub mod Activity
pub mod Scenarios
