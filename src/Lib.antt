-- ===== src/Lib.antt =====
-- Weather-driven demand forecasting: what reaches the database, the feature store and the lake.
--
-- Kafka topics carry demand events and weather readings. Two threads of the ingestor write them to
-- Postgres or to a dead-letter topic. The worker's two stream threads keep sliding-window features in
-- Redis and the events in an hourly partitioned lake; a nightly job writes batch features into the same
-- Redis hashes; the serving layer reads them for each prediction; a tool recomputes the windows from the
-- lake; the ingestor's third thread writes each completed hour of the raw tables to the lake; the
-- worker's batch turns the raw tables into staging and the mart; the trainer registers a model and
-- promotes it through two gates; the worker's drift check may start a retraining, which a weekly job
-- starts too; and the API serves the models to clients and to a live stream. The messages come from an
-- event generator and from a poller of the weather service, of which a mock injects faults. Two tools of
-- the command line put the lake back into the raw tables and set a consumer group to an earlier time,
-- and a third one compares what was served with the warehouse.
-- These parts are modelled here:
--   Json, Floats, Prelude     values of json.loads and the exceptions told apart; floats as an
--                             interface; shared names, Boolean tests, lists and dictionaries
--   Numbers                   floats and integers together, for the two generators
--   Events/Producer, Weather  libs/common/common/producer.py and generator.py
--   Events/Poller             services/weather-poller/app/main.py
--   Events/Demand, Events/Generator
--                             services/event-generator/app/demand.py and main.py
--   Events/Arrival            what the ingestor makes of a message of these
--   Tools/Backfill, Tools/Replay, Tools/SkewCheck
--                             tools/backfill.py, tools/replay.py and tools/skew_check.py
--   Ingestor/Db               services/ingestor/app/db.py
--   Ingestor/Envelope, Ingestor/Consumers
--                             services/ingestor/app/consumers.py
--   Stream/RedisOps           services/worker/app/stream_features/redis_ops.py
--   Stream/Buffer             services/worker/app/stream_features/parquet_buffer.py
--   Stream/Consumer           services/worker/app/stream_features/consumer.py
--   Stream/Reconstruct        tools/reconstruct.py
--   Features/Registry         libs/common/common/features/registry.py
--   Features/Sync             services/worker/app/feature_store.py
--   Features/Online           services/api/app/features/online.py
--   Models/Promote            services/trainer/app/promote.py
--   Ingestor/Hourly           services/ingestor/app/parquet_writer.py
--   Batch                     services/worker/app/sql_runner.py, staging.py and marts.py
--   Batch/Pipeline            services/worker/app/pipeline.py
--   Drift                     services/worker/app/drift.py
--   Retrain                   services/worker/app/auto_retrain.py
--   Serving/Models, Serving/Predict, Serving/Shadow, Serving/Broadcast, Serving/Prometheus,
--   Serving/Reads
--                             services/api/app/main.py
--   MockWeather               services/mock-weather/app/chaos.py, and the controls in main.py
--   MockWeather/Adapter       services/mock-weather/app/adapter.py, and the weather routes in main.py
-- Functions keep the names of the program's, without a leading underscore. The modules below each of
-- these prove something of it and are named for that; a Tests module has concrete runs.
--
-- A handler is a function from the state to an outcome (`ok` or the exception raised) and the state
-- that it leaves, also where it raises. A thread's `while` loop runs over the list of its rounds until
-- the list ends, which is when the stop event is set, or an exception leaves it, so it needs no fuel;
-- the `finally` block follows in either case. What Kafka, Postgres, Redis and S3 answer, and the clock,
-- come with each round, in any combination. The split of a table into batches has the length of the
-- table for fuel, which is enough for any batch size above zero; the loop over the hours of a rollover has
-- two more than the hours up to its end, and the loop over the days of a backfill one more than there are
-- days from the first to the last. The threads that may retrain take their steps in any order, as a
-- relation. A SQL file is a function on the database. Parsers (`json.loads`, dates, floats),
-- Postgres' equality of ids and the drift measure of a feature are parameters. Times are natural
-- numbers of microseconds since the epoch. The two consumers of a service differ in validation and rows
-- only and are one definition over these. Messages handed out and dead letters that could not be produced
-- are kept in the state although the program does not keep them.
--
-- Not modelled: logging, metrics but the ingestor's counters, the construction of clients, the listing
-- of S3 paths by the tools, the encoding of Parquet, the SQL files, a command of a Redis pipeline that
-- fails while later ones of it are executed, an exception of S3 in the hourly writer that is no
-- ClientError, an upload of the stream's buffer or a commit of Postgres that takes effect although it
-- raises; of the API the first load's retry loop, the periodic broadcast and /model/info; the
-- handlers of signals and the command lines; the training itself; and the services and tools other than
-- those above, among them services/drift and the benchmarks. The answers of Prometheus have the shape that
-- it documents, or are failures.
mod Prelude
pub mod Json
pub mod Floats
pub mod Ingestor
pub mod Stream
pub mod Features
pub mod Models
pub mod Retrain
pub mod Batch
pub mod Drift
pub mod Serving
pub mod MockWeather
pub mod Numbers
pub mod Weather
pub mod Events
pub mod Tools
