-- ===== src/Pipeline/Silver.antt =====
-- What the tasks of the silver DAGs do to the tables: the `main` functions of silver/transform, which
-- the Spark jobs of dags/eth_silver_dag_k8s.py and dags/eth_silver_dag_gke.py run, and the bodies of
-- the tasks of dags/eth_silver_dag_local.py.
use eth_project.Prelude.{ℕ, ◌*◌, String, Bool, Option, some, List, map}
use eth_project.Action.{Action, ok, os_error, cloud_error, call, continue, ◌>>◌, finally}
use eth_project.Silver.Enriched.{Enriched, BronzeTxn, Receipt, build_txn_enriched}
use eth_project.Silver.TokenFlow.{Transfer, TokenMeta, Block, TokenFlow, build_token_flow}
use eth_project.Silver.Whales.{Txn, WhaleTxn, Engine, build_whale_txns, ether}
use eth_project.Silver.Labels.{Label}
use eth_project.Pipeline.Tables.{Table, Write, write_silver, read_silver}

-- The extracted files of each date, the lists that the jobs join with, and what Spark computes.
pub record Sources (Float : Type 0) : Type 0 where
  pub transactions : ℕ → List BronzeTxn
  pub receipts : ℕ → List Receipt
  pub transfers : ℕ → List Transfer
  pub blocks : ℕ → List Block
  pub tokens : List TokenMeta
  pub labels : List Label
  pub to_eth : ℕ → Option ℕ
  pub date_of : ℕ → ℕ
  pub amount_of : String → ℕ → Float
  pub hour_of : Option ℕ → Option ℕ
  pub flow_date_of : Option ℕ → Option ℕ
  pub engine : Engine

pub record SilverLake (Float : Type 0) : Type 0 where
  pub txn_enriched : Table Enriched
  pub token_flow : Table (TokenFlow Float)
  pub whale_txns : Table WhaleTxn

-- What the calls of one attempt do: `ready` stands for the reads and the display before the write.
pub record JobEnv (A : Type 0) : Type 0 where
  pub session : Bool
  pub ready : Bool
  pub write : Write A
  pub unpersist : Bool
  pub stop : Bool

-- The columns of txn_enriched that whale_txns reads.
unfoldable pub txn_of : Enriched → Txn
txn_of e = record {
  hash = e.hash;
  block_timestamp = e.block_timestamp;
  from_address = e.from_address;
  to_address = e.to_address;
  value_eth = e.value_eth;
  is_success = e.is_success;
}

abbrev pub enriched_dt : Enriched → Option ℕ
enriched_dt e = some e.dt

module _ {Float : Type 0} where
  abbrev pub flow_dt : TokenFlow Float → Option ℕ
  flow_dt f = f.dt

  abbrev pub at_enriched : Action (Table Enriched) (Unit {0}) → Action (SilverLake Float) (Unit {0})
  at_enriched m s = let (r, t) = m s.txn_enriched in (r, record s { txn_enriched = t })

  abbrev pub at_flow :
      Action (Table (TokenFlow Float)) (Unit {0}) → Action (SilverLake Float) (Unit {0})
  at_flow m s = let (r, t) = m s.token_flow in (r, record s { token_flow = t })

  abbrev pub at_whales : Action (Table WhaleTxn) (Unit {0}) → Action (SilverLake Float) (Unit {0})
  at_whales m s = let (r, t) = m s.whale_txns in (r, record s { whale_txns = t })

  abbrev pub session : Bool → Action (SilverLake Float) (Unit {0})
  session works = call works os_error (λ s. s)

  -- `except Exception as e: logger.exception(e)`.
  abbrev pub logged : Action (SilverLake Float) (Unit {0}) → Action (SilverLake Float) (Unit {0})
  logged m s = let (r, s') = m s in (ok tt, s')

  module _ (src : Sources Float) (d : ℕ) where
    unfoldable pub enriched_rows : List Enriched
    enriched_rows = build_txn_enriched src.to_eth src.date_of (src.transactions d) (src.receipts d)

    unfoldable pub flow_rows : List (TokenFlow Float)
    flow_rows =
        build_token_flow src.amount_of src.hour_of src.flow_date_of (src.transfers d) src.tokens
          (src.blocks d) src.labels

    -- `build_whale_txns(spark, dt, 100.0)` on the rows that it reads.
    unfoldable pub rows_of_whales : List Enriched → List WhaleTxn
    rows_of_whales txns = build_whale_txns src.engine (100 * ether) src.labels (map txn_of txns)

    unfoldable pub store_enriched : JobEnv Enriched → Action (SilverLake Float) (Unit {0})
    store_enriched env = do
      call env.ready cloud_error (λ s. s)
      at_enriched (write_silver env.write enriched_dt enriched_rows)

    unfoldable pub store_flow : JobEnv (TokenFlow Float) → Action (SilverLake Float) (Unit {0})
    store_flow env = do
      call env.ready cloud_error (λ s. s)
      at_flow (write_silver env.write flow_dt flow_rows)

    -- The rows of the date, read from txn_enriched, make those of whale_txns, which all have its date.
    unfoldable pub store_whales : JobEnv WhaleTxn → Action (SilverLake Float) (Unit {0})
    store_whales env s =
        continue (read_silver env.ready s.txn_enriched d)
          (λ txns. at_whales (write_silver env.write (λ _. some d) (rows_of_whales txns))) s

    -- `main` of transform/txn_enriched.py: an exception fails the job.
    unfoldable pub txn_enriched_main : JobEnv Enriched → Action (SilverLake Float) (Unit {0})
    txn_enriched_main env = do session env.session; store_enriched env; session env.stop

    -- `main` of transform/token_flow.py and of transform/whale_txns.py: an exception is logged, and
    -- the job ends as if it had worked.
    unfoldable pub token_flow_main : JobEnv (TokenFlow Float) → Action (SilverLake Float) (Unit {0})
    token_flow_main env = do
      session env.session
      finally (logged (do store_flow env; session env.unpersist)) (session env.stop)

    unfoldable pub whale_txns_main : JobEnv WhaleTxn → Action (SilverLake Float) (Unit {0})
    whale_txns_main env = do
      session env.session
      finally (logged (do store_whales env; session env.unpersist)) (session env.stop)

    -- The tasks of the local DAG, where an exception fails the task.
    unfoldable pub build_txn_enriched_task : JobEnv Enriched → Action (SilverLake Float) (Unit {0})
    build_txn_enriched_task env = do
      session env.session
      finally (store_enriched env) (session env.stop)

    unfoldable pub build_token_flow_task :
        JobEnv (TokenFlow Float) → Action (SilverLake Float) (Unit {0})
    build_token_flow_task env = do session env.session; finally (store_flow env) (session env.stop)

    unfoldable pub build_whale_txns_task : JobEnv WhaleTxn → Action (SilverLake Float) (Unit {0})
    build_whale_txns_task env = do
      session env.session
      finally (store_whales env) (session env.stop)
