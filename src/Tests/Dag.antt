-- ===== src/Tests/Dag.antt =====
-- A run of the ETL DAG, and the theorem about it.
use eth_project.Prelude.{ℕ, String, ◌≡◌, refl, true, Option, none, some, [], ◌∷◌}
use eth_project.Action.{ok, Result}
use eth_project.Action.Outcomes.{Ensures}
use eth_project.Lake.Files.{
  File, blocks, transactions, token_transfers, Local, Shell, same_file, exists,
}
use eth_project.Lake.Extract.{export_receipts_and_logs, whale_lines}
use eth_project.Lake.Blocks.{export_blocks_and_transactions, total_transactions}
use eth_project.Lake.Transfers.{export_token_transfers}
use eth_project.Lake.Dag.{
  DagEnv, RangeData, Run, run_dag, extract_blocks_tx_and_receipts_task,
  extract_token_transfers_task, fresh_pod, fail_unless, quality_check, stats_pass, is_zero_size,
}
use eth_project.Lake.Dag.Published.{IsPublished, run_dag-IsPublished}

abbrev sized : ℕ → File
sized n = record { lines = []; size = n }

abbrev block_shell : Shell
block_shell = record {
  writes = (blocks 7 9, sized 30) ∷ (transactions 7 9, sized 50) ∷ [];
  succeeds = true;
}

abbrev transfer_shell : Shell
transfer_shell = record { writes = (token_transfers 7 9, sized 20) ∷ []; succeeds = true }

abbrev good_env : DagEnv
good_env = record {
  count_decode = record { loads = λ s. none; count_of = λ j. none };
  blocks_env = record {
    shell = block_shell;
    accepts_blocks = true;
    accepts_transactions = true;
    removable = λ f. true;
  };
  decode = record { loads = λ s. none; int_of = λ j. none; text_size = λ h. 0 };
  receipts_env = record {
    writable = true;
    shell = transfer_shell;
    accepts = true;
    removable = λ f. true;
  };
  upload_env = record { shell = transfer_shell; accepts = true; removable = true };
}

abbrev day : RangeData
day = record { start = 7; end_ = 9; date_str = "2026-05-01" }

abbrev nothing : Local
nothing = record { disk = []; bucket = [] }

run_dag-IsPublished_example :
    Ensures (IsPublished good_env day) (λ e t. Unit {0}) (run_dag good_env day) nothing
run_dag-IsPublished_example = run_dag-IsPublished good_env day nothing

-- That run returns.
abbrev date_of : Result Run → Option String
date_of (ok r) = some r.published
date_of q = none

good_run : date_of (run_dag good_env day nothing).0 ≡ some "2026-05-01"
unfolding run_dag extract_blocks_tx_and_receipts_task fresh_pod export_blocks_and_transactions
    exists same_file total_transactions export_receipts_and_logs whale_lines
    extract_token_transfers_task export_token_transfers fail_unless quality_check stats_pass
    is_zero_size
good_run = refl
