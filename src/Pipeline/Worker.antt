-- ===== src/Pipeline/Worker.antt =====
-- A run of dags/eth_silver_dag_local.py, whose tasks call the transforms on the worker and which checks
-- the tables before it publishes.
pub mod Gated
use eth_project.Prelude.{
  ℕ, ◌+◌, ◌≡◌, String, Bool, true, false, not, ◌&&◌, Option, none, some, List, [], ◌∷◌, map, length,
  pos, if◌then◌else◌,
}
use eth_project.Action.{
  Action, Result, ok, raised, airflow_fail, value_error, call, ◌>>=◌, ◌>>◌, finally,
}
use eth_project.Silver.Enriched.{Enriched}
use eth_project.Silver.TokenFlow.{TokenFlow}
use eth_project.Silver.Whales.{WhaleTxn}
use eth_project.Silver.Checks.{
  Check, passed, TxnTests, WhaleCheckRow, run_kpi_check, run_token_flow_kpi_check,
  run_whale_kpi_check,
}
use eth_project.Silver.Checks as Checks
use eth_project.Pipeline.Tables.{Table}
use eth_project.Pipeline.Silver.{
  Sources, SilverLake, JobEnv, session, build_txn_enriched_task, build_token_flow_task,
  build_whale_txns_task,
}

-- What the calls of one attempt at the quality check do: which tables can be read, with their
-- sources, whether the whales can be counted, and what the tests of floats find.
pub record QualityEnv : Type 0 where
  pub session : Bool
  pub txn_readable : Bool
  pub flow_readable : Bool
  pub whales_readable : Bool
  pub whales_counted : Bool
  pub tests : TxnTests
  pub active_tokens : ℕ
  pub stop : Bool

unfoldable pub whale_check_row : WhaleTxn → WhaleCheckRow
whale_check_row w = record {
  hash = some w.hash;
  from_address = w.from_address;
  to_address = w.to_address;
  value_eth = some (pos w.value_eth);
}

abbrev pub counts : {A : Type 0} → Bool → Option (List A) → ℕ → Option (ℕ × ℕ)
counts readable none source = none
counts false (some rows) source = none
counts true (some rows) source = some (length rows, source)

abbrev pub check_rows : Bool → Bool → Option (List WhaleTxn) → Option (Option (List WhaleCheckRow))
check_rows readable counted none = none
check_rows false counted (some rows) = none
check_rows true false (some rows) = some none
check_rows true true (some rows) = some (some (map whale_check_row rows))

pub data Task : Type 0 where
  build_txn_enriched build_token_flow build_whale_txns quality_check publish_silver_asset : Task

-- The wiring, after get_execution_date.
unfoldable pub upstream : Task → List Task
upstream build_txn_enriched = []
upstream build_token_flow = build_txn_enriched ∷ []
upstream build_whale_txns = build_txn_enriched ∷ []
upstream quality_check = build_token_flow ∷ build_whale_txns ∷ []
upstream publish_silver_asset = quality_check ∷ []

pub record Done : Type 0 where
  pub txn_enriched : Bool
  pub token_flow : Bool
  pub whale_txns : Bool
  pub checked : Bool
  pub published : Bool

abbrev pub is_done : Done → Task → Bool
is_done s build_txn_enriched = s.txn_enriched
is_done s build_token_flow = s.token_flow
is_done s build_whale_txns = s.whale_txns
is_done s quality_check = s.checked
is_done s publish_silver_asset = s.published

abbrev pub mark : Task → Done → Done
mark build_txn_enriched s = record s { txn_enriched = true }
mark build_token_flow s = record s { token_flow = true }
mark build_whale_txns s = record s { whale_txns = true }
mark quality_check s = record s { checked = true }
mark publish_silver_asset s = record s { published = true }

abbrev pub all_done : Done → List Task → Bool
all_done s [] = true
all_done s (t ∷ ts) = is_done s t && all_done s ts

unfoldable pub can_start : Done → Task → Bool
unfolding upstream
can_start s t = not (is_done s t) && all_done s (upstream t)

pub data Attempt (Float : Type 0) : Type 0 where
  txn_enriched : JobEnv Enriched → Attempt Float
  token_flow : JobEnv (TokenFlow Float) → Attempt Float
  whale_txns : JobEnv WhaleTxn → Attempt Float
  check : QualityEnv → Attempt Float
  publish : Bool → Attempt Float

pub record DagRun (Float : Type 0) : Type 0 where
  pub lake : SilverLake Float
  pub done : Done
  pub asset : Option ℕ

module _ {Float : Type 0} where
  abbrev pub unless_raised : Check → Action (SilverLake Float) (Unit {0})
  unless_raised passed s = (ok tt, s)
  unless_raised Checks.raised s = (raised value_error, s)

  abbrev pub task_of : Attempt Float → Task
  task_of (txn_enriched env) = build_txn_enriched
  task_of (token_flow env) = build_token_flow
  task_of (whale_txns env) = build_whale_txns
  task_of (check env) = quality_check
  task_of (publish works) = publish_silver_asset

  abbrev pub finished :
      Task
      → (Option ℕ → Option ℕ)
      → Result (Unit {0}) × SilverLake Float
      → DagRun Float
      → DagRun Float
  finished t event (ok u, lake) run = record {
    lake = lake;
    done = mark t run.done;
    asset = event run.asset;
  }
  finished t event (raised e, lake) run = record run { lake = lake }

  abbrev pub start : SilverLake Float → DagRun Float
  start lake = record {
    lake = lake;
    done = record {
      txn_enriched = false;
      token_flow = false;
      whale_txns = false;
      checked = false;
      published = false;
    };
    asset = none;
  }

  module _ (src : Sources Float) (d : ℕ) where
    unfoldable pub run_checks : QualityEnv → Action (SilverLake Float) (Unit {0})
    run_checks env s =
        (do
          unless_raised (
              run_kpi_check
                (counts env.txn_readable (s.txn_enriched d) (length (src.transactions d)))
                env.tests)
          unless_raised (
              run_token_flow_kpi_check
                (counts env.flow_readable (s.token_flow d) (length (src.transfers d)))
                env.active_tokens)
          unless_raised (
              run_whale_kpi_check
                (check_rows env.whales_readable env.whales_counted (s.whale_txns d))))
          s

    unfoldable pub quality_check_body : QualityEnv → Action (SilverLake Float) (Unit {0})
    quality_check_body env = do session env.session; finally (run_checks env) (session env.stop)

    unfoldable pub body : Attempt Float → Action (SilverLake Float) (Unit {0})
    body (txn_enriched env) = build_txn_enriched_task src d env
    body (token_flow env) = build_token_flow_task src d env
    body (whale_txns env) = build_whale_txns_task src d env
    body (check env) = quality_check_body env
    body (publish works) = call works airflow_fail (λ s. s)

    unfoldable pub event_of : Attempt Float → Option ℕ → Option ℕ
    event_of (txn_enriched env) asset = asset
    event_of (token_flow env) asset = asset
    event_of (whale_txns env) asset = asset
    event_of (check env) asset = asset
    event_of (publish works) asset = some d

    unfoldable pub attempt : Attempt Float → DagRun Float → DagRun Float
    unfolding body event_of
    attempt a run = finished (task_of a) (event_of a) (body a run.lake) run

    unfoldable pub run_attempts : List (Attempt Float) → DagRun Float → DagRun Float
    run_attempts [] run = run
    run_attempts (a ∷ rest) run = run_attempts rest (attempt a run)

    abbrev pub IsScheduled : List (Attempt Float) → DagRun Float → Type 0
    IsScheduled [] run = Unit
    IsScheduled (a ∷ rest) run =
        (can_start run.done (task_of a) ≡ true) × IsScheduled rest (attempt a run)
