-- ===== src/Lib.antt =====
-- A model of the Python program of this repository, an Ethereum data platform: a streaming consumer
-- that writes Kafka messages to PostgreSQL, a dashboard backend, and batch jobs over a data lake.
--
-- Parts and files:
-- - Prelude: notation, Boolean tests on the native numbers, lists, integers. Json: decoded JSON.
--   Runtime: Python's `json`, `datetime`, pydantic's coercions and redis-py's `setex`, as parameters.
-- - Action: code that changes a state and may raise. An action returns its result beside the state
--   that it reached, so what happened before an exception is kept.
-- - Consumer (src/consumer): Models (models.py), Table and Database (db.py), Producer and Poll
--   (kafka_client.py), Redis (redis_client.py), and of main.py: Enrich (`enrich_token_timestamp`),
--   Flush (`flush_batches`), Main (the loop and the `finally` block of `main`).
-- - Backend (src/backend): Sockets (`ConnectionManager` of core/ws_manager.py), Alerts
--   (`decode_whale_alert` and `consume_whale_alerts` of main.py), Caching (the cached reads of
--   services/gas_service.py and services/token_service.py), Wallets (services/wallet_service.py),
--   WhaleList (services/whale_service.py, repositories/whale_repo.py), Tokens (the lists and trends of
--   services/token_service.py and repositories/token_repo.py), Trending (`get_trending_tokens` of the
--   latter, `search_tokens` of api/tokens.py), Bootstrap (scripts/bootstrap_es_tokens.py, at the root),
--   Gas (repositories/gas_repo.py), Loading (the CSV loaders of core/db.py), Lifespan (`lifespan` of
--   main.py, core/redis_client.py, the pool of core/db.py).
-- - Lake (src/storage, dags): Files (the working directory, utils/shell.py, utils/gcs.py), Extract
--   (etl/receipts.py), Blocks (etl/blocks.py), Transfers (etl/transfers.py), Contracts
--   (etl/contracts.py), Stored (what stays in the bucket), Quality (`quality_check_task` of
--   dags/eth_etl_dag.py), Dag (the tasks of dags/eth_etl_dag_k8s.py and their run), Dag/Worker (those
--   of dags/eth_etl_dag.py and the run of dags/eth_etl_dag_gke.py), Lookup (utils/block.py and
--   `calculate_block_range` of the three DAGs), Backfill (backfill_bq_to_gcs.py).
-- - Address (src/address): Labels and Collected (`resolve_category` and `fetch_labels` of
--   fetch_known_labels.py), Retry and TopTokens (`fetch_with_retry`, at most five requests, and
--   `main` of top1000_erc20_tokens.py).
-- - Frame: tables as lists of rows, with joins, groups and sums.
-- - Silver (src/silver, src/jobs): Labels (known_labels.py), Whales (transform/whale_txns.py),
--   TokenFlow (transform/token_flow.py), Enriched (transform/txn_enriched.py), Checks (check/*.py and
--   jobs/silver_quality_check_job.py, with the columns of schema/silver_schema.py).
-- - Gold (src/gold): TopWhales and Entities (transform/top_whales_daily.py), MarketFlow
--   (transform/market_flow_hourly.py), Popularity (transform/token_popularity_daily.py), Hourly
--   (transform/token_popularity_hourly.py). They read what Silver/Whales and Silver/TokenFlow build.
-- - Pipeline (dags): Tables (`write_silver` of silver/utils.py, `read_silver` of silver/spark_config.py),
--   Silver (the tasks of eth_silver_dag_local.py and the `main` functions of silver/transform), Cluster (the
--   runs of eth_silver_dag_k8s.py, which eth_silver_dag_gke.py repeats), Worker (those of
--   eth_silver_dag_local.py), Gold (the tasks of eth_gold_dag_local.py, the writers of gold/utils.py and
--   the `main` functions of gold/transform). A run is the list of the attempts that Airflow makes, in any
--   order that the wiring allows; on the cluster with the two retries of each task.
-- - Tests: concrete inputs, and the theorems at them.
--
-- The consumer puts whale alerts into Kafka (Consumer/Producer); the backend reads them back
-- (Backend/Alerts) and hands them to the websockets (Backend/Sockets). The consumer's tables are what
-- the backend's services read.
--
-- How the model stands to the code. Each call of an external library (librdkafka, psycopg2, redis-py)
-- returns or raises as an argument of the model says (`FlushEnv`, `Iteration`, `ShutdownEnv`,
-- `Request`), so a theorem holds for every pattern of failures. The endless loops run over the list of
-- their turns, which is what they do in any finite time. `enrich_token_timestamp` reads Redis at most
-- eleven times, counted down from `max_retries`. `run_backfill` has fuel; more of it than the range
-- has days is enough. Coroutines give way at their `await`s only, so the websocket manager is a list of events, and a broadcast is a list of sends in the order in which
-- they end. A float that the code only passes on is kept as an exact quotient or as a parameter.
-- The queries of Spark are functions on lists of rows. Where Spark is free to choose, in the order of
-- rows that a window does not order or in the row that is kept of duplicates, the choice is a
-- parameter. Amounts of ether are exact, in units of 10 ^ -18, as the decimal columns are, also where
-- Spark compares one with a float as doubles. The entries of the list of tokens that a request is answered
-- have the fields that the code reads. Lifespan's `redis` says whether the client is open.
-- `committed` is the offset that the consumer asked Kafka to commit.
--
-- Not modelled: logging, the construction of clients and sessions from settings, `time.sleep`, the
-- infrastructure (Docker, Terraform), the frontend, the settings of Airflow, and the DAGs and scripts that
-- try out a connection or measure a delay.
pub mod Prelude
pub mod Json
pub mod Runtime
pub mod Action
pub mod Consumer
pub mod Address
pub mod Backend
pub mod Frame
pub mod Gold
pub mod Lake
pub mod Pipeline
pub mod Silver
pub mod Tests
