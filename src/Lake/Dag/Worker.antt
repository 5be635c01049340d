-- ===== src/Lake/Dag/Worker.antt =====
-- The tasks of dags/eth_etl_dag.py, which share the working directory of one worker, and their run in
-- the order of its wiring; and the run of dags/eth_etl_dag_gke.py.
use eth_project.Prelude.{◌+◌, ◌*◌, String, Option, none, some, pos, ◌-ℤ◌, ◌+ℤ◌, pos_part}
use eth_project.Action.{Action, pure, ◌>>=◌, ◌>>◌}
use eth_project.Lake.Files.{FileName, Local}
use eth_project.Lake.Extract.{ReceiptStats, export_receipts_and_logs}
use eth_project.Lake.Blocks.{BlocksResult, export_blocks_and_transactions}
use eth_project.Lake.Transfers.{export_token_transfers}
use eth_project.Lake.Quality.{BlockStats, quality_check_task}
use eth_project.Lake.Dag.{DagEnv, RangeData, Run, Summary, fail_unless, run_dag}

unfoldable pub extract_blocks_and_transactions_task : DagEnv → RangeData → Action Local BlocksResult
extract_blocks_and_transactions_task env range =
    export_blocks_and_transactions env.count_decode env.blocks_env range.start range.end_
      range.date_str

unfoldable pub export_receipts_task : DagEnv → FileName → RangeData → Action Local ReceiptStats
export_receipts_task env tx_file range =
    export_receipts_and_logs env.decode env.receipts_env tx_file range.start range.end_
      range.date_str

unfoldable pub extract_token_transfers_and_contracts_task :
    DagEnv → RangeData → Action Local (Unit {0})
extract_token_transfers_and_contracts_task env range = do
  transfers ← export_token_transfers env.upload_env range.start range.end_ range.date_str
  pure tt

-- `send_summary_report` of this DAG: the transfers are not in its size.
unfoldable pub summary_report :
    Option RangeData → Option BlocksResult → Option ReceiptStats → Option Summary
summary_report none b r = none
summary_report (some range) none r = none
summary_report (some range) (some b) none = none
summary_report (some range) (some b) (some r) = some (record {
  date_str = range.date_str;
  block_count = (pos range.end_ -ℤ pos range.start) +ℤ pos 1;
  total_tx_in_blocks = b.total_tx_in_blocks;
  whale_count = r.whale_count;
  total_size_bytes = b.tx_file_size + b.block_file_size + r.receipt_file_size;
  est_alchemy_cu = r.whale_count * 15;
})

-- The part of the statistics that the check reads.
unfoldable pub block_stats : BlocksResult → BlockStats
block_stats b = record {
  total_tx_in_blocks = pos_part b.total_tx_in_blocks;
  tx_file_size = b.tx_file_size;
  block_file_size = b.block_file_size;
}

pub record LocalRun : Type 0 where
  pub blocks_stats : BlocksResult
  pub receipts_stats : ReceiptStats
  pub summary : Option Summary
  pub published : String

unfoldable pub run_local_dag : DagEnv → RangeData → Action Local LocalRun
run_local_dag env range = do
  b ← extract_blocks_and_transactions_task env range
  r ← export_receipts_task env b.tx_file range
  extract_token_transfers_and_contracts_task env range
  fail_unless (quality_check_task (some range.date_str) (some (block_stats b)) (some r))
  pure (record {
    blocks_stats = b;
    receipts_stats = r;
    summary = summary_report (some range) (some b) (some r);
    published = range.date_str;
  })

-- The tasks of eth_etl_dag_gke.py are those of eth_etl_dag_k8s.py, in the same order.
unfoldable pub run_gke_dag : DagEnv → RangeData → Action Local Run
run_gke_dag env range = run_dag env range
