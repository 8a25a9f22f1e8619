-- ===== src/Lib.antt =====
-- The verification library of null, a framework that ingests threat feeds (src/cti).
--
-- A feed runner (src/cti/manager/runner.py) runs one source: a circuit breaker may reject the run,
-- a row is opened for it, and a pipeline of seven stages (src/cti/core/pipeline.py,
-- src/cti/core/stages) fetches, parses, normalises, enriches, hints, stores and publishes the
-- indicators, each stage a task, joined by bounded queues (src/cti/core/queue.py). The result goes
-- into the row of the run and moves the watermark of the source (src/cti/manager/state.py). The
-- library models these parts as functions from a state to a result and a state, and the
-- interleaving of the tasks of a queue as a step relation.
--
-- The modules, with the code that each is about:
--   Prelude, Dict, Text, Json, Tables: the Python values and the tables that the code works on.
--   Errors      src/cti/core/errors.py
--   Enums       src/cti/core/enums.py, src/cti/security/tlp.py
--   Models      src/cti/core/models.py; Models/Build is Indicator.build
--   Hashing     src/cti/core/hashing.py
--   Queue       src/cti/core/queue.py; Queue/Channel is a queue with its two tasks
--   RateLimit   src/cti/core/ratelimit.py, in process and as the Lua script
--   Stages      src/cti/core/stages/*.py, one module for each stage
--   Pipeline    src/cti/core/pipeline.py: run_with_outcome; Pipeline/Tasks is Pipeline.run
--   Breaker     src/cti/manager/circuit_breaker.py
--   Retry       src/cti/manager/retry.py
--   State       src/cti/manager/state.py, src/cti/manager/deadletter.py
--   Runner      src/cti/manager/runner.py
--   Registry    src/cti/manager/registry.py
--   Concurrency src/cti/manager/concurrency.py
--   Scheduler   src/cti/manager/scheduler.py
--   Worker      src/cti/manager/worker.py
--   Partitioning src/cti/persistence/partitioning.py
--   Repositories src/cti/persistence/repositories.py; Repositories/Upsert is IndicatorRepo with
--               src/cti/plugins/publishers/postgres.py, Repositories/Queries the select statements
--   Api         src/cti/obs/http_app.py; Api/Auth is src/cti/obs/auth.py
--   Config      src/cti/config/secrets.py and merge of src/cti/config/loader.py
--   Archive     src/cti/security/archive.py
--   Cli         src/cti/cli/commands: Runs (run_once.py, replay.py, backfill.py), Dlq (dlq.py),
--               Sources (sources.py), Settings (config_cmd.py); Masking is their _mask
--   Egress      src/cti/security/egress.py
--   Plugins     src/cti/plugins: Builder (builder.py), Loader (loader.py), Databases
--               (enrichers/geoip.py and enrichers/asn.py), Http (connectors/http_base.py),
--               JsonParser (parsers/json_parser.py), CsvParser (parsers/csv_parser.py),
--               TxtExtractor (parsers/txt_extractor.py), Allowlist (enrichers/allowlist.py), Defang
--               (enrichers/defang.py), Tlp (what publishers/webhook.py and publishers/kafka.py send)
--
-- Conventions. A clock reading is an argument of the step that reads it. Floats are whole numbers
-- of a unit that makes the arithmetic exact. A text is a list of ASCII code points. A call of a
-- plugin, of Redis or of an archive is given by its answers, as a function or a list; tenacity,
-- httpx, ipaddress, urllib, the resolver, the plugin loader and uuid5 are records of functions,
-- tenacity with the laws that the code relies on. For a run the database is two tables with get
-- and put; for the repositories it is the lists of the rows, with the order of a query as an
-- interface that Repositories/Queries/Instance fills. A stage is a function from the items of its
-- input to what it does until it returns or raises. No fuel is used but for the digits of a
-- number, where one step for each unit of the number is more than its digits, as Json/Str/Fuel has
-- it.
--
-- The parts meet in four places. Pipeline/Tasks gives each stage what the stage before it has put
-- out, which is what a queue delivers by Queue/Channel. Runner gets such a pipeline by how its
-- attempts end, and Worker runs a job of the queue on the runner. Cli/Runs builds the pipeline of
-- a configured source by Plugins/Builder, whose interface Plugins/Loader fills, and runs it. Api
-- reads and changes the rows of Repositories, to which the Postgres publisher writes.
--
-- Not modelled: logging, metrics but for those that the stages count, the commands that start a
-- server, a worker or a migration, the settings of src/cti/config/schema.py, the migrations,
-- Starlette's matching of routes, and the loops that wait for signals and for jobs, since these
-- are calls of libraries or input and output. Messages of exceptions are kept only where another
-- part reads them.
pub mod Api
pub mod Archive
pub mod Breaker
pub mod Cli
pub mod Concurrency
pub mod Config
pub mod Dict
pub mod Egress
pub mod Enums
pub mod Errors
pub mod Hashing
pub mod Json
pub mod Models
pub mod Partitioning
pub mod Pipeline
pub mod Plugins
pub mod Prelude
pub mod Queue
pub mod RateLimit
pub mod Registry
pub mod Repositories
pub mod Retry
pub mod Runner
pub mod Scheduler
pub mod Stages
pub mod State
pub mod Tables
pub mod Text
pub mod Worker
