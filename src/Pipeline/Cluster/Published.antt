-- ===== src/Pipeline/Cluster/Published.antt =====
-- What the tables hold once the silver asset of a date is out.
use eth_project.Prelude.{ℕ, ◌≡◌, ap, true, some, List, [], ◌∷◌, All, arith, non_empty}
use eth_project.Silver.Enriched.{Enriched}
use eth_project.Silver.TokenFlow.{TokenFlow}
use eth_project.Silver.Whales.{WhaleTxn}
use eth_project.Pipeline.Tables.{stored, rows_on, write_silver, write_partitions-some, read_silver}
use eth_project.Pipeline.Silver.{
  Sources, SilverLake, JobEnv, enriched_dt, flow_dt, enriched_rows, flow_rows, rows_of_whales,
  store_enriched, store_flow, store_whales, txn_enriched_main, token_flow_main, whale_txns_main,
}
use eth_project.Pipeline.Cluster.{
  Attempt, txn_enriched, token_flow, whale_txns, publish, DagRun, start, body, event_of, attempt,
  run_attempts, IsScheduled, can_start, task_of, is_ok,
}

module _ {Float : Type 0} (src : Sources Float) (d : ℕ) where
  -- The folders that a run is to write.
  abbrev pub enriched_folder : List Enriched
  enriched_folder = rows_on enriched_dt d (enriched_rows src d)

  abbrev pub flow_folder : List (TokenFlow Float)
  flow_folder = rows_on flow_dt d (flow_rows src d)

  abbrev pub whales_folder : List WhaleTxn
  whales_folder = rows_on (λ _. some d) d (rows_of_whales src d enriched_folder)

  -- The attempts at token_flow and whale_txns in which nothing raises between the reads and the write.
  abbrev pub IsSmooth : Attempt Float → Type 0
  IsSmooth (txn_enriched env) = Unit
  IsSmooth (token_flow env) = (env.ready ≡ true) × (env.write ≡ stored)
  IsSmooth (whale_txns env) = (env.ready ≡ true) × (env.write ≡ stored)
  IsSmooth (publish works) = Unit

  -- The tables hold the rows of the date.
  abbrev pub Stored : SilverLake Float → Type 0
  Stored lake =
      (lake.txn_enriched d ≡ some enriched_folder)
      × (lake.token_flow d ≡ some flow_folder)
      × (lake.whale_txns d ≡ some whales_folder)

  pub record IsCurrent (run : DagRun Float) : Type 0 where
    pub enriched : run.done.txn_enriched ≡ true → run.lake.txn_enriched d ≡ some enriched_folder
    pub flow : run.done.token_flow ≡ true → run.lake.token_flow d ≡ some flow_folder
    pub whales : run.done.whale_txns ≡ true → run.lake.whale_txns d ≡ some whales_folder
    pub flow_after : run.done.token_flow ≡ true → run.done.txn_enriched ≡ true
    pub flow_asset : run.asset ≡ some d → run.done.token_flow ≡ true
    pub whales_asset : run.asset ≡ some d → run.done.whale_txns ≡ true

  module _ (has_enriched : non_empty enriched_folder ≡ true)
      (has_flow : non_empty flow_folder ≡ true) (has_whales : non_empty whales_folder ≡ true) where
    enriched_main_stores :
        (env : JobEnv Enriched) (lake : SilverLake Float)
        → is_ok (txn_enriched_main src d env lake) ≡ true
        → (txn_enriched_main src d env lake).1.txn_enriched d ≡ some enriched_folder
    unfolding txn_enriched_main store_enriched write_silver
    enriched_main_stores env lake h = ground (
      arith,
      write_partitions-some enriched_dt (enriched_rows src d) lake.txn_enriched d has_enriched,
    )

    enriched_main_keeps :
        (env : JobEnv Enriched) (lake : SilverLake Float)
        → ((txn_enriched_main src d env lake).1.token_flow ≡ lake.token_flow)
          × ((txn_enriched_main src d env lake).1.whale_txns ≡ lake.whale_txns)
    unfolding txn_enriched_main store_enriched write_silver
    enriched_main_keeps env lake = ground arith

    flow_main_stores :
        (env : JobEnv (TokenFlow Float)) (lake : SilverLake Float)
        → env.ready ≡ true
        → env.write ≡ stored
        → is_ok (token_flow_main src d env lake) ≡ true
        → (token_flow_main src d env lake).1.token_flow d ≡ some flow_folder
    unfolding token_flow_main store_flow write_silver
    flow_main_stores env lake r w h =
        ground (arith, write_partitions-some flow_dt (flow_rows src d) lake.token_flow d has_flow)

    flow_main_keeps :
        (env : JobEnv (TokenFlow Float)) (lake : SilverLake Float)
        → ((token_flow_main src d env lake).1.txn_enriched ≡ lake.txn_enriched)
          × ((token_flow_main src d env lake).1.whale_txns ≡ lake.whale_txns)
    unfolding token_flow_main store_flow write_silver
    flow_main_keeps env lake = ground arith

    whales_main_stores :
        (env : JobEnv WhaleTxn) (lake : SilverLake Float)
        → env.ready ≡ true
        → env.write ≡ stored
        → lake.txn_enriched d ≡ some enriched_folder
        → is_ok (whale_txns_main src d env lake) ≡ true
        → (whale_txns_main src d env lake).1.whale_txns d ≡ some whales_folder
    unfolding whale_txns_main store_whales write_silver read_silver
    whales_main_stores env lake r w e h = ground (
      arith,
      write_partitions-some (λ _. some d) (rows_of_whales src d enriched_folder) lake.whale_txns d
          has_whales,
    )

    whales_main_keeps :
        (env : JobEnv WhaleTxn) (lake : SilverLake Float)
        → ((whale_txns_main src d env lake).1.txn_enriched ≡ lake.txn_enriched)
          × ((whale_txns_main src d env lake).1.token_flow ≡ lake.token_flow)
    unfolding whale_txns_main store_whales write_silver read_silver
    whales_main_keeps env lake = ground arith

    attempt-IsCurrent :
        (a : Attempt Float) (run : DagRun Float)
        → IsSmooth a
        → can_start run.done run.failed (task_of a) ≡ true
        → IsCurrent run
        → IsCurrent (attempt src d a run)
    unfolding attempt can_start body event_of
    attempt-IsCurrent (txn_enriched env) run s r c = ground (
      arith,
      enriched_main_stores env run.lake,
      ap (λ t. t d) (enriched_main_keeps env run.lake).0,
      ap (λ t. t d) (enriched_main_keeps env run.lake).1,
    )
    attempt-IsCurrent (token_flow env) run s r c = ground (
      arith,
      flow_main_stores env run.lake s.0 s.1,
      ap (λ t. t d) (flow_main_keeps env run.lake).0,
      ap (λ t. t d) (flow_main_keeps env run.lake).1,
    )
    attempt-IsCurrent (whale_txns env) run s r c = ground (
      arith,
      whales_main_stores env run.lake s.0 s.1,
      ap (λ t. t d) (whales_main_keeps env run.lake).0,
      ap (λ t. t d) (whales_main_keeps env run.lake).1,
    )
    attempt-IsCurrent (publish works) run s r c = ground arith

    run-IsCurrent :
        (attempts : List (Attempt Float)) (run : DagRun Float)
        → All IsSmooth attempts
        → IsScheduled src d attempts run
        → IsCurrent run
        → IsCurrent (run_attempts src d attempts run)
    unfolding run_attempts
    run-IsCurrent [] run s r c = c
    run-IsCurrent (a ∷ rest) run s r c =
        run-IsCurrent rest (attempt src d a run) s.1 r.1 (attempt-IsCurrent a run s.0 r.0 c)

    start-IsCurrent : (lake : SilverLake Float) → IsCurrent (start lake)
    start-IsCurrent lake = ground arith

    current-Stored : (run : DagRun Float) → IsCurrent run → run.asset ≡ some d → Stored run.lake
    current-Stored run c a = ground arith

    -- However often tasks failed and in whatever order they ran: once the asset of a date is out on the
    -- cluster, the tables hold the rows of that date; if no attempt at token_flow or whale_txns raises
    -- between its reads and its write, and each has rows.
    pub run_attempts-Stored :
        (attempts : List (Attempt Float)) (lake : SilverLake Float)
        → All IsSmooth attempts
        → IsScheduled src d attempts (start lake)
        → (run_attempts src d attempts (start lake)).asset ≡ some d
        → Stored (run_attempts src d attempts (start lake)).lake
    run_attempts-Stored attempts lake s r a =
        current-Stored (run_attempts src d attempts (start lake))
          (run-IsCurrent attempts (start lake) s r (start-IsCurrent lake)) a

  -- The run in which whale_txns cannot read its table.
  abbrev pub silent_run :
      JobEnv Enriched → JobEnv (TokenFlow Float) → JobEnv WhaleTxn → List (Attempt Float)
  silent_run enriched flow whales =
      txn_enriched enriched ∷ token_flow flow ∷ whale_txns whales ∷ publish true ∷ []
