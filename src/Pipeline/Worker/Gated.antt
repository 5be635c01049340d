-- ===== src/Pipeline/Worker/Gated.antt =====
-- The quality check stands before the asset of the local run, and it does not let a day pass.
use eth_project.Prelude.{
  ℕ, ◌≡◌, ◌≢◌, ap, true, false, none, some, List, [], ◌∷◌, All, arith, non_empty, length,
}
use eth_project.Action.{ok}
use eth_project.Silver.Enriched.{Enriched}
use eth_project.Silver.TokenFlow.{TokenFlow}
use eth_project.Silver.Whales.{WhaleTxn}
use eth_project.Silver.Checks.Gate.{txn_raises}
use eth_project.Pipeline.Tables.{rows_on, write_silver, write_partitions-some, read_silver}
use eth_project.Pipeline.Silver.{
  Sources, SilverLake, JobEnv, enriched_dt, enriched_rows, store_enriched, store_flow, store_whales,
  build_txn_enriched_task, build_token_flow_task, build_whale_txns_task,
}
use eth_project.Pipeline.Worker.{
  Attempt, txn_enriched, token_flow, whale_txns, check, publish, DagRun, start, body, event_of,
  attempt, run_attempts, IsScheduled, can_start, task_of, QualityEnv, run_checks,
  quality_check_body,
}

module _ {Float : Type 0} (src : Sources Float) (d : ℕ) where
  abbrev enriched_folder : List Enriched
  enriched_folder = rows_on enriched_dt d (enriched_rows src d)

  -- An attempt at the check that can read txn_enriched and the transactions of the date.
  abbrev pub IsReadable : Attempt Float → Type 0
  IsReadable (txn_enriched env) = Unit
  IsReadable (token_flow env) = Unit
  IsReadable (whale_txns env) = Unit
  IsReadable (check env) = env.txn_readable ≡ true
  IsReadable (publish works) = Unit

  record IsClosed (run : DagRun Float) : Type 0 where
    enriched : run.done.txn_enriched ≡ true → run.lake.txn_enriched d ≡ some enriched_folder
    flow_after : run.done.token_flow ≡ true → run.done.txn_enriched ≡ true
    checked : run.done.checked ≡ false
    asset : run.asset ≡ none

  check_raises :
      (env : QualityEnv) (run : DagRun Float) (rows : List Enriched)
      → env.txn_readable ≡ true
      → run.lake.txn_enriched d ≡ some rows
      → quality_check_body src d env run.lake ≢ (ok tt, (quality_check_body src d env run.lake).1)
  unfolding quality_check_body run_checks
  check_raises env run rows r e h =
      ground (arith, txn_raises (length rows, length (src.transactions d)) env.tests)

  flow_task_keeps :
      (env : JobEnv (TokenFlow Float)) (lake : SilverLake Float)
      → (build_token_flow_task src d env lake).1.txn_enriched ≡ lake.txn_enriched
  unfolding build_token_flow_task store_flow write_silver
  flow_task_keeps env lake = ground arith

  whales_task_keeps :
      (env : JobEnv WhaleTxn) (lake : SilverLake Float)
      → (build_whale_txns_task src d env lake).1.txn_enriched ≡ lake.txn_enriched
  unfolding build_whale_txns_task store_whales write_silver read_silver
  whales_task_keeps env lake = ground arith

  check_keeps :
      (env : QualityEnv) (lake : SilverLake Float) → (quality_check_body src d env lake).1 ≡ lake
  unfolding quality_check_body run_checks
  check_keeps env lake = ground arith

  module _ (has_enriched : non_empty enriched_folder ≡ true) where
    enriched_task_stores :
        (env : JobEnv Enriched) (lake : SilverLake Float)
        → build_txn_enriched_task src d env lake
          ≡ (ok tt, (build_txn_enriched_task src d env lake).1)
        → (build_txn_enriched_task src d env lake).1.txn_enriched d ≡ some enriched_folder
    unfolding build_txn_enriched_task store_enriched write_silver
    enriched_task_stores env lake h = ground (
      arith,
      write_partitions-some enriched_dt (enriched_rows src d) lake.txn_enriched d has_enriched,
    )

    attempt-IsClosed :
        (a : Attempt Float) (run : DagRun Float)
        → IsReadable a
        → can_start run.done (task_of a) ≡ true
        → IsClosed run
        → IsClosed (attempt src d a run)
    unfolding attempt can_start body event_of
    attempt-IsClosed (txn_enriched env) run s r c =
        ground (arith, enriched_task_stores env run.lake)
    attempt-IsClosed (token_flow env) run s r c =
        ground (arith, ap (λ t. t d) (flow_task_keeps env run.lake))
    attempt-IsClosed (whale_txns env) run s r c =
        ground (arith, ap (λ t. t d) (whales_task_keeps env run.lake))
    attempt-IsClosed (check env) run s r c =
        ground (arith, check_keeps env run.lake, check_raises env run enriched_folder s)
    attempt-IsClosed (publish works) run s r c = ground arith

    run-IsClosed :
        (attempts : List (Attempt Float)) (run : DagRun Float)
        → All IsReadable attempts
        → IsScheduled src d attempts run
        → IsClosed run
        → IsClosed (run_attempts src d attempts run)
    unfolding run_attempts
    run-IsClosed [] run s r c = c
    run-IsClosed (a ∷ rest) run s r c =
        run-IsClosed rest (attempt src d a run) s.1 r.1 (attempt-IsClosed a run s.0 r.0 c)

    start-IsClosed : (lake : SilverLake Float) → IsClosed (start lake)
    start-IsClosed lake = ground arith

    -- The local run never publishes the asset of a date, whatever its tasks build and however often
    -- they are tried: if the date has rows of txn_enriched, and each attempt at the check can read them
    -- and their source.
    pub run_attempts_gated :
        (attempts : List (Attempt Float)) (lake : SilverLake Float)
        → All IsReadable attempts
        → IsScheduled src d attempts (start lake)
        → (run_attempts src d attempts (start lake)).asset ≡ none
    run_attempts_gated attempts lake s r =
        (run-IsClosed attempts (start lake) s r (start-IsClosed lake)).asset
