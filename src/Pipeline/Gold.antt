-- ===== src/Pipeline/Gold.antt =====
-- The tasks of dags/eth_gold_dag_local.py, with the two writers of gold/utils.py, and the jobs of
-- dags/eth_gold_dag_k8s.py and dags/eth_gold_dag_gke.py, the `main` functions of gold/transform.
pub mod Reruns
pub mod Hourly
use eth_project.Prelude.{
  ℕ, ◌≡◌, Bool, true, false, Option, none, some, List, [], ◌∷◌, ◌++◌, map, if◌then◌else◌, non_empty,
}
use eth_project.Action.{
  Action, Result, ok, raised, os_error, cloud_error, call, continue, ◌>>=◌, ◌>>◌, finally,
}
use eth_project.Silver.TokenFlow.{TokenFlow}
use eth_project.Silver.Whales.{WhaleTxn}
use eth_project.Gold.Entities.{Arrange}
use eth_project.Gold.TopWhales.{TopWhale, build_top_whales_daily}
use eth_project.Gold.Popularity.{Floats, TokenPopularity, build_token_popularity_daily}
use eth_project.Gold.MarketFlow.{MarketFlow, build_market_flow_hourly}
use eth_project.Pipeline.Tables.{Table, Write, write_silver, read_silver}

-- A table of the gold layer: its folders in the bucket, and its rows in BigQuery with their dates.
pub record GoldTable (A : Type 0) : Type 0 where
  pub folders : Table A
  pub bigquery : List (ℕ × A)

-- What the calls of one attempt do.
pub record GoldEnv (A : Type 0) : Type 0 where
  pub session : Bool
  pub readable : Bool
  pub write : Write A
  pub load : Bool
  pub stop : Bool

module _ {A : Type 0} where
  abbrev pub gold_session : Bool → Action (GoldTable A) (Unit {0})
  gold_session works = call works os_error (λ s. s)

  -- All rows of a gold table have the date of its run.
  unfoldable pub write_gold : Write A → ℕ → List A → Action (GoldTable A) (Unit {0})
  write_gold write d rows s =
      let (r, t) = write_silver write (λ _. some d) rows s.folders in (r, record s { folders = t })

  -- Mode "append".
  unfoldable pub write_gold_to_bq : Bool → ℕ → List A → Action (GoldTable A) (Unit {0})
  write_gold_to_bq loaded d rows =
      call loaded cloud_error (λ s. record s { bigquery = s.bigquery ++ map (λ r. (d, r)) rows })

  -- The attempts of a task for one date, the failed ones with them.
  unfoldable pub gold_attempts :
      (GoldEnv A → Action (GoldTable A) (Unit {0})) → List (GoldEnv A) → GoldTable A → GoldTable A
  gold_attempts task [] s = s
  gold_attempts task (env ∷ envs) s = gold_attempts task envs (task env s).1

  module _ {S : Type 0} (build : List S → List A) (silver : Table S) (d : ℕ) where
    unfoldable pub build_and_store : GoldEnv A → Action (GoldTable A) (Unit {0})
    build_and_store env s =
        continue (read_silver env.readable silver d)
          (λ rows. do write_gold env.write d (build rows); write_gold_to_bq env.load d (build rows))
          s

    -- A task of the local DAG.
    unfoldable pub gold_task : GoldEnv A → Action (GoldTable A) (Unit {0})
    gold_task env = do
      gold_session env.session
      finally (build_and_store env) (gold_session env.stop)

    -- `main` of a transform, without the display of the table.
    unfoldable pub gold_main : GoldEnv A → Action (GoldTable A) (Unit {0})
    gold_main env = do gold_session env.session; build_and_store env; gold_session env.stop

unfoldable pub top_whales_daily_task :
    Arrange → Table WhaleTxn → ℕ → GoldEnv TopWhale → Action (GoldTable TopWhale) (Unit {0})
top_whales_daily_task arrange = gold_task (build_top_whales_daily arrange)

unfoldable pub top_whales_daily_main :
    Arrange → Table WhaleTxn → ℕ → GoldEnv TopWhale → Action (GoldTable TopWhale) (Unit {0})
top_whales_daily_main arrange = gold_main (build_top_whales_daily arrange)

unfoldable pub market_flow_hourly_main :
    (ℕ → ℕ → ℕ) → Table WhaleTxn → ℕ → GoldEnv MarketFlow → Action (GoldTable MarketFlow) (Unit {0})
market_flow_hourly_main divide = gold_main (build_market_flow_hourly divide)

module _ {Float : Type 0} (floats : Floats Float) where
  unfoldable pub token_popularity_daily_task :
      Table (TokenFlow Float)
      → ℕ
      → GoldEnv (TokenPopularity Float)
      → Action (GoldTable (TokenPopularity Float)) (Unit {0})
  token_popularity_daily_task = gold_task (build_token_popularity_daily floats)

  unfoldable pub token_popularity_daily_main :
      Table (TokenFlow Float)
      → ℕ
      → GoldEnv (TokenPopularity Float)
      → Action (GoldTable (TokenPopularity Float)) (Unit {0})
  token_popularity_daily_main = gold_main (build_token_popularity_daily floats)
