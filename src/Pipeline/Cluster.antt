-- ===== src/Pipeline/Cluster.antt =====
-- A run of dags/eth_silver_dag_k8s.py, which dags/eth_silver_dag_gke.py repeats, as the list of the
-- attempts that Airflow makes, failed ones with them. The quality check stands in comments there.
pub mod Published
pub mod Progress
use eth_project.Prelude.{
  ℕ, ◌+◌, ◌≡◌, String, str_eq, Bool, true, false, not, ◌&&◌, leb, Option, none, some, List, [], ◌∷◌,
  if◌then◌else◌,
}
use eth_project.Action.{Action, Result, ok, raised, airflow_fail, call}
use eth_project.Silver.Enriched.{Enriched}
use eth_project.Silver.TokenFlow.{TokenFlow}
use eth_project.Silver.Whales.{WhaleTxn}
use eth_project.Pipeline.Tables.{Table}
use eth_project.Pipeline.Silver.{
  Sources, SilverLake, JobEnv, txn_enriched_main, token_flow_main, whale_txns_main,
}

-- The date of a run: that of the event which triggered it, else that of the run itself.
unfoldable pub get_execution_date : List (Option String) → String → String
get_execution_date [] logical_date = logical_date
get_execution_date (none ∷ events) logical_date = logical_date
get_execution_date (some dt_str ∷ events) logical_date =
    if str_eq dt_str "" then logical_date else dt_str

pub data Task : Type 0 where
  build_txn_enriched build_token_flow build_whale_txns publish_silver_asset : Task

-- The wiring, after get_execution_date.
unfoldable pub upstream : Task → List Task
upstream build_txn_enriched = []
upstream build_token_flow = build_txn_enriched ∷ []
upstream build_whale_txns = build_txn_enriched ∷ []
upstream publish_silver_asset = build_token_flow ∷ build_whale_txns ∷ []

-- Which tasks have succeeded.
pub record Done : Type 0 where
  pub txn_enriched : Bool
  pub token_flow : Bool
  pub whale_txns : Bool
  pub published : Bool

abbrev pub is_done : Done → Task → Bool
is_done s build_txn_enriched = s.txn_enriched
is_done s build_token_flow = s.token_flow
is_done s build_whale_txns = s.whale_txns
is_done s publish_silver_asset = s.published

abbrev pub mark : Task → Done → Done
mark build_txn_enriched s = record s { txn_enriched = true }
mark build_token_flow s = record s { token_flow = true }
mark build_whale_txns s = record s { whale_txns = true }
mark publish_silver_asset s = record s { published = true }

-- How many attempts of each task have failed.
pub record Failed : Type 0 where
  pub txn_enriched : ℕ
  pub token_flow : ℕ
  pub whale_txns : ℕ
  pub publish : ℕ

abbrev pub failed_of : Failed → Task → ℕ
failed_of f build_txn_enriched = f.txn_enriched
failed_of f build_token_flow = f.token_flow
failed_of f build_whale_txns = f.whale_txns
failed_of f publish_silver_asset = f.publish

abbrev pub fail : Task → Failed → Failed
fail build_txn_enriched f = record f { txn_enriched = f.txn_enriched + 1 }
fail build_token_flow f = record f { token_flow = f.token_flow + 1 }
fail build_whale_txns f = record f { whale_txns = f.whale_txns + 1 }
fail publish_silver_asset f = record f { publish = f.publish + 1 }

-- "retries" of default_args.
abbrev pub retries : ℕ
retries = 2

abbrev pub all_done : Done → List Task → Bool
all_done s [] = true
all_done s (t ∷ ts) = is_done s t && all_done s ts

-- A task that Airflow may start: open, with each task before it succeeded and a retry left.
unfoldable pub can_start : Done → Failed → Task → Bool
unfolding upstream
can_start s f t = not (is_done s t) && (all_done s (upstream t) && leb (failed_of f t) retries)

pub data Attempt (Float : Type 0) : Type 0 where
  txn_enriched : JobEnv Enriched → Attempt Float
  token_flow : JobEnv (TokenFlow Float) → Attempt Float
  whale_txns : JobEnv WhaleTxn → Attempt Float
  publish : Bool → Attempt Float

pub record DagRun (Float : Type 0) : Type 0 where
  pub lake : SilverLake Float
  pub done : Done
  pub failed : Failed
  pub asset : Option ℕ

module _ {Float : Type 0} where
  abbrev pub task_of : Attempt Float → Task
  task_of (txn_enriched env) = build_txn_enriched
  task_of (token_flow env) = build_token_flow
  task_of (whale_txns env) = build_whale_txns
  task_of (publish works) = publish_silver_asset

  abbrev pub finished :
      Task
      → (Option ℕ → Option ℕ)
      → Result (Unit {0}) × SilverLake Float
      → DagRun Float
      → DagRun Float
  finished t event (ok u, lake) run = record {
    lake = lake;
    done = mark t run.done;
    failed = run.failed;
    asset = event run.asset;
  }
  finished t event (raised e, lake) run = record run { lake = lake; failed = fail t run.failed }

  abbrev pub is_ok : Result (Unit {0}) × SilverLake Float → Bool
  is_ok (ok a, lake) = true
  is_ok (raised e, lake) = false

  abbrev pub start : SilverLake Float → DagRun Float
  start lake = record {
    lake = lake;
    done = record {
      txn_enriched = false;
      token_flow = false;
      whale_txns = false;
      published = false;
    };
    failed = record { txn_enriched = 0; token_flow = 0; whale_txns = 0; publish = 0 };
    asset = none;
  }

  module _ (src : Sources Float) (d : ℕ) where
    unfoldable pub body : Attempt Float → Action (SilverLake Float) (Unit {0})
    body (txn_enriched env) = txn_enriched_main src d env
    body (token_flow env) = token_flow_main src d env
    body (whale_txns env) = whale_txns_main src d env
    body (publish works) = call works airflow_fail (λ s. s)

    -- The event that a task emits when it succeeds.
    unfoldable pub event_of : Attempt Float → Option ℕ → Option ℕ
    event_of (txn_enriched env) asset = asset
    event_of (token_flow env) asset = asset
    event_of (whale_txns env) asset = asset
    event_of (publish works) asset = some d

    unfoldable pub attempt : Attempt Float → DagRun Float → DagRun Float
    unfolding body event_of
    attempt a run = finished (task_of a) (event_of a) (body a run.lake) run

    unfoldable pub run_attempts : List (Attempt Float) → DagRun Float → DagRun Float
    run_attempts [] run = run
    run_attempts (a ∷ rest) run = run_attempts rest (attempt a run)

    -- Airflow starts a task only when it may, again after at most `retries` failures of it
    -- and never after a success.
    abbrev pub IsScheduled : List (Attempt Float) → DagRun Float → Type 0
    IsScheduled [] run = Unit
    IsScheduled (a ∷ rest) run =
        (can_start run.done run.failed (task_of a) ≡ true) × IsScheduled rest (attempt a run)
