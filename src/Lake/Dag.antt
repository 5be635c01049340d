-- ===== src/Lake/Dag.antt =====
-- The tasks of dags/eth_etl_dag_k8s.py, which dags/eth_etl_dag_gke.py repeats, and their run in the
-- order of its wiring, with one attempt for each. A task has a pod, and so a working directory, of its own.
pub mod Published
pub mod Worker
use eth_project.Prelude.{
  ℕ, ◌+◌, ◌*◌, ◌≡◌, String, Bool, true, false, not, ◌&&◌, Option, none, some, List, [], ◌∷◌, ◌++◌,
  ◌==◌, non_empty, ℤ, pos, ◌-ℤ◌, ◌+ℤ◌, if◌then◌else◌,
}
use eth_project.Action.{Action, Result, ok, raised, airflow_fail, pure, ◌>>=◌, ◌>>◌}
use eth_project.Lake.Files.{FileName, Local}
use eth_project.Lake.Extract.{Decode, ReceiptsEnv, ReceiptStats, export_receipts_and_logs}
use eth_project.Lake.Blocks.{CountDecode, BlocksEnv, BlocksResult, export_blocks_and_transactions}
use eth_project.Lake.Transfers.{UploadEnv, export_token_transfers}

pub record RangeData : Type 0 where
  pub start : ℕ
  pub end_ : ℕ
  pub date_str : String

-- What the calls of one run do.
pub record DagEnv : Type 0 where
  pub count_decode : CountDecode
  pub blocks_env : BlocksEnv
  pub decode : Decode
  pub receipts_env : ReceiptsEnv
  pub upload_env : UploadEnv

pub record ExtractStats : Type 0 where
  pub blocks_stats : Option BlocksResult
  pub receipts_stats : Option ReceiptStats

unfoldable pub fresh_pod : Action Local (Unit {0})
fresh_pod s = (ok tt, record s { disk = [] })

unfoldable pub extract_blocks_tx_and_receipts_task :
    DagEnv → RangeData → Action Local (BlocksResult × ReceiptStats)
extract_blocks_tx_and_receipts_task env range = do
  fresh_pod
  blocks_stats ←
      export_blocks_and_transactions env.count_decode env.blocks_env range.start range.end_
        range.date_str
  receipts_stats ←
      export_receipts_and_logs env.decode env.receipts_env blocks_stats.tx_file range.start
        range.end_ range.date_str
  pure (blocks_stats, receipts_stats)

unfoldable pub extract_token_transfers_task : DagEnv → RangeData → Action Local (FileName × ℕ)
extract_token_transfers_task env range = do
  fresh_pod
  export_token_transfers env.upload_env range.start range.end_ range.date_str

-- A size that is there and zero.
unfoldable pub is_zero_size : Option ℕ → Bool
is_zero_size none = false
is_zero_size (some size) = size == 0

-- The checks on statistics that are all there; `transfer_file_size` may be missing.
unfoldable pub stats_pass : BlocksResult → ReceiptStats → Option ℕ → Bool
stats_pass b r transfer_file_size =
    (r.whale_count == r.receipt_count)
    && (not (b.tx_file_size == 0)
        && (not (b.block_file_size == 0) && not (is_zero_size transfer_file_size)))

-- `quality_check_task`: true where it returns, false where it raises AirflowFailException.
unfoldable pub quality_check : Option RangeData → Option ExtractStats → Option ℕ → Bool
quality_check none extract transfers = false
quality_check (some range) none transfers = false
quality_check (some range) (some e) transfers = elim e.blocks_stats [
  | none ↦ false
  | some b ↦ elim e.receipts_stats [ none ↦ false | some r ↦ stats_pass b r transfers ]
]

pub record Summary : Type 0 where
  pub date_str : String
  pub block_count : ℤ
  pub total_tx_in_blocks : ℤ
  pub whale_count : ℕ
  pub total_size_bytes : ℕ
  pub est_alchemy_cu : ℕ

unfoldable pub size_or_zero : Option ℕ → ℕ
size_or_zero none = 0
size_or_zero (some size) = size

-- The numbers of the report, or nothing where it is skipped.
unfoldable pub send_summary_report :
    Option RangeData → Option ExtractStats → Option ℕ → Option Summary
send_summary_report none extract transfers = none
send_summary_report (some range) none transfers = none
send_summary_report (some range) (some e) transfers = elim e.blocks_stats [
  | none ↦ none
  | some b ↦ elim e.receipts_stats [
    | none ↦ none
    | some r ↦ some (record {
      date_str = range.date_str;
      block_count = (pos range.end_ -ℤ pos range.start) +ℤ pos 1;
      total_tx_in_blocks = b.total_tx_in_blocks;
      whale_count = r.whale_count;
      total_size_bytes =
          b.tx_file_size + b.block_file_size + r.receipt_file_size + size_or_zero transfers;
      est_alchemy_cu = r.whale_count * 15;
    })
  ]
]

-- What a run leaves: the statistics, the report, and the date of the asset event.
pub record Run : Type 0 where
  pub blocks_stats : BlocksResult
  pub receipts_stats : ReceiptStats
  pub transfer_file_size : ℕ
  pub summary : Option Summary
  pub published : String

unfoldable pub fail_unless : Bool → Action Local (Unit {0})
fail_unless true s = (ok tt, s)
fail_unless false s = (raised airflow_fail, s)

-- The run from the range on: the extractions one after the other, the check, the report and the event.
unfoldable pub run_dag : DagEnv → RangeData → Action Local Run
run_dag env range = do
  stats ← extract_blocks_tx_and_receipts_task env range
  transfers ← extract_token_transfers_task env range
  fail_unless (
      quality_check (some range)
        (some (record { blocks_stats = some stats.0; receipts_stats = some stats.1 }))
        (some transfers.1))
  pure (record {
    blocks_stats = stats.0;
    receipts_stats = stats.1;
    transfer_file_size = transfers.1;
    summary =
        send_summary_report (some range)
          (some (record { blocks_stats = some stats.0; receipts_stats = some stats.1 }))
          (some transfers.1);
    published = range.date_str;
  })
