-- ===== src/Lake/Quality.antt =====
-- `quality_check_task` of dags/eth_etl_dag.py.
use eth_project.Prelude.{
  ℕ, String, ◌≡◌, ◌≢◌, ◌↔◌, Bool, true, false, not, Option, none, some, ◌==◌, non_empty, List, [],
  ◌∷◌, ◌++◌, arith,
}
use eth_project.Lake.Extract.{ReceiptStats}

-- The numbers of the task's statistics that the check reads.
pub record BlockStats : Type 0 where
  pub total_tx_in_blocks : ℕ
  pub tx_file_size : ℕ
  pub block_file_size : ℕ

pub data Issue : Type 0 where
  zero_byte_transactions zero_byte_blocks consistency_mismatch : Issue

abbrev pub when : Bool → Issue → List Issue
when true i = i ∷ []
when false i = []

-- The issues of two statistics that are there.
unfoldable pub quality_issues : BlockStats → ReceiptStats → List Issue
quality_issues b r =
    when (not (r.whale_count == r.receipt_count)) consistency_mismatch
    ++ (when (b.tx_file_size == 0) zero_byte_transactions
        ++ when (b.block_file_size == 0) zero_byte_blocks)

-- The task, from the range's date and the two statistics: true where it returns, false where it raises `AirflowFailException`.
unfoldable pub quality_check_task : Option String → Option BlockStats → Option ReceiptStats → Bool
unfolding quality_issues
quality_check_task none b r = false
quality_check_task (some date) none r = false
quality_check_task (some date) (some b) none = false
quality_check_task (some date) (some b) (some r) = not (non_empty (quality_issues b r))

-- With its three inputs there, the check passes just when each whale has a receipt and neither file is empty.
pub quality_check_task_lem :
    (date : String) (b : BlockStats) (r : ReceiptStats)
    → (quality_check_task (some date) (some b) (some r) ≡ true)
      ↔ ((r.whale_count ≡ r.receipt_count) × (b.tx_file_size ≢ 0) × (b.block_file_size ≢ 0))
unfolding quality_check_task quality_issues
quality_check_task_lem date b r = ground arith
