-- ===== src/Lake/Dag/Published.antt =====
-- What holds once a run of the DAG has published its event.
use eth_project.Prelude.{ℕ, ◌≡◌, ◌≢◌, refl, String, Bool, true, false, some, arith}
use eth_project.Action.{Result, ok, raised, pure, ◌>>=◌}
use eth_project.Action.Outcomes.{After, Ensures, Ensures-bind}
use eth_project.Lake.Files.{FileName, blocks, transactions, receipts, token_transfers, Local}
use eth_project.Lake.Extract.{ReceiptStats}
use eth_project.Lake.Blocks.{BlocksResult, export_blocks_and_transactions}
use eth_project.Lake.Stored.{IsStored, Keeps, Stores, Keeps-bind, Stores-bind, Stores-first}
use eth_project.Lake.Stored.Primitives.{Keeps-pure}
use eth_project.Lake.Stored.Kept.{Keeps-export_receipts_and_logs, Keeps-export_token_transfers}
use eth_project.Lake.Stored.Exports.{
  Stores-blocks, Stores-transactions, Stores-receipts, Stores-transfers,
}
use eth_project.Lake.Dag.{
  DagEnv, RangeData, Run, fresh_pod, extract_blocks_tx_and_receipts_task,
  extract_token_transfers_task, fail_unless, quality_check, stats_pass, is_zero_size, run_dag,
}

module _ (env : DagEnv) (range : RangeData) where
  abbrev start : ℕ
  start = range.start

  abbrev end_ : ℕ
  end_ = range.end_

  abbrev date : String
  date = range.date_str

  Keeps-fresh_pod : (name : FileName) → Keeps name date fresh_pod
  unfolding fresh_pod Keeps
  Keeps-fresh_pod name s h = h

  Keeps-fail_unless : (name : FileName) (b : Bool) → Keeps name date (fail_unless b)
  unfolding fail_unless Keeps
  Keeps-fail_unless name true s h = h
  Keeps-fail_unless name false s h = h

  -- An object that the export of blocks stores is there when the whole run returns.
  stored_first :
      (name : FileName)
      → Stores name date
          (export_blocks_and_transactions env.count_decode env.blocks_env start end_ date)
      → Stores name date (run_dag env range)
  unfolding run_dag extract_blocks_tx_and_receipts_task extract_token_transfers_task
  stored_first name stores =
      Stores-first name date _ _
        (Stores-bind name date fresh_pod _ (λ _. Stores-first name date _ _ stores (λ b.
          Keeps-bind name date _ _
            (Keeps-export_receipts_and_logs name date env.decode env.receipts_env _ start end_ date)
            (λ r. Keeps-pure name date _))))
        (λ stats.
          Keeps-bind name date _ _
            (Keeps-bind name date _ _ (Keeps-fresh_pod name)
              (λ _. Keeps-export_token_transfers name date env.upload_env start end_ date))
            (λ t.
              Keeps-bind name date _ _ (Keeps-fail_unless name _) (λ _. Keeps-pure name date _)))

  stored_receipts : Stores (receipts start end_) date (run_dag env range)
  unfolding run_dag extract_blocks_tx_and_receipts_task extract_token_transfers_task
  stored_receipts =
      let name = receipts start end_ in
      Stores-first name date _ _
        (Stores-bind name date fresh_pod _ (λ _.
          Stores-bind name date
            (export_blocks_and_transactions env.count_decode env.blocks_env start end_ date) _
            (λ b.
              Stores-first name date _ _
                (Stores-receipts start end_ date env.decode env.receipts_env
                  (BlocksResult.tx_file b))
                (λ r. Keeps-pure name date _))))
        (λ stats.
          Keeps-bind name date _ _
            (Keeps-bind name date _ _ (Keeps-fresh_pod name)
              (λ _. Keeps-export_token_transfers name date env.upload_env start end_ date))
            (λ t.
              Keeps-bind name date _ _ (Keeps-fail_unless name _) (λ _. Keeps-pure name date _)))

  stored_transfers : Stores (token_transfers start end_) date (run_dag env range)
  unfolding run_dag extract_token_transfers_task
  stored_transfers =
      let name = token_transfers start end_ in
      Stores-bind name date (extract_blocks_tx_and_receipts_task env range) _ (λ stats.
        Stores-first name date _ _
          (Stores-bind name date fresh_pod _ (λ _. Stores-transfers start end_ date env.upload_env))
          (λ t. Keeps-bind name date _ _ (Keeps-fail_unless name _) (λ _. Keeps-pure name date _)))

  -- The statistics of a run that returned.
  abbrev IsChecked : Run → Type 0
  IsChecked r =
      (stats_pass r.blocks_stats r.receipts_stats (some r.transfer_file_size) ≡ true)
      × (r.published ≡ date)

  checked :
      (stats : BlocksResult × ReceiptStats) (size : ℕ) (b : Bool) (r : Run) (s : Local)
      → (b ≡ true → IsChecked r)
      → Ensures (λ q _. IsChecked q) (λ e t. Unit) (fail_unless b >>= (λ _. pure r)) s
  unfolding fail_unless
  checked stats size true r s h = h refl
  checked stats size false r s h = tt

  run-IsChecked : (s : Local) → Ensures (λ q _. IsChecked q) (λ e t. Unit) (run_dag env range) s
  unfolding run_dag quality_check
  run-IsChecked s =
      Ensures-bind (λ _ _. Unit {0}) (λ q _. IsChecked q) (λ e t. Unit)
        (extract_blocks_tx_and_receipts_task env range) _ s (any_end _ _)
        (λ stats t _.
          Ensures-bind (λ _ _. Unit {0}) (λ q _. IsChecked q) (λ e t. Unit)
            (extract_token_transfers_task env range) _ t (any_end _ _)
            (λ transfers u _. checked stats transfers.1 _ _ u (λ h. (h, refl))))
    where
      any_end :
          {A : Type 0} (r : Result A) (t : Local) → After (λ _ _. Unit {0}) (λ e t. Unit {0}) r t
      any_end (ok a) t = tt
      any_end (raised e) t = tt

  -- What is so when the event is published: the four files are in the date's partition, each whale has a receipt, and none of the three files whose size is checked is empty.
  pub record IsPublished (r : Run) (t : Local) : Type 0 where
    pub blocks_stored : IsStored (blocks start end_) date t
    pub transactions_stored : IsStored (transactions start end_) date t
    pub receipts_stored : IsStored (receipts start end_) date t
    pub transfers_stored : IsStored (token_transfers start end_) date t
    pub consistent : r.receipts_stats.whale_count ≡ r.receipts_stats.receipt_count
    pub sizes :
        (r.blocks_stats.tx_file_size ≢ 0)
        × (r.blocks_stats.block_file_size ≢ 0)
        × (r.transfer_file_size ≢ 0)
    pub of_date : r.published ≡ date

  pass_says :
      (b : BlocksResult) (r : ReceiptStats) (size : ℕ)
      → stats_pass b r (some size) ≡ true
      → (r.whale_count ≡ r.receipt_count)
        × ((b.tx_file_size ≢ 0) × (b.block_file_size ≢ 0) × (size ≢ 0))
  unfolding stats_pass is_zero_size
  pass_says b r size h = ground (arith, h)

  -- From any state of the bucket and whatever fails, a run that returns has published the date of its range, with its blocks, transactions, receipts and transfers in the bucket under that date, as many receipts as whales and no empty file among those of blocks, transactions and transfers.
  pub run_dag-IsPublished : (s : Local) → Ensures IsPublished (λ e t. Unit) (run_dag env range) s
  unfolding Stores
  run_dag-IsPublished s =
      go (run_dag env range s).0 (run_dag env range s).1
        (stored_first (blocks start end_)
          (Stores-blocks start end_ date env.count_decode env.blocks_env) s)
        (stored_first (transactions start end_)
          (Stores-transactions start end_ date env.count_decode env.blocks_env) s)
        (stored_receipts s) (stored_transfers s) (run-IsChecked s)
    where
      go :
          (q : Result Run) (t : Local)
          → After (λ _ u. IsStored (blocks start end_) date u) (λ e u. Unit {0}) q t
          → After (λ _ u. IsStored (transactions start end_) date u) (λ e u. Unit {0}) q t
          → After (λ _ u. IsStored (receipts start end_) date u) (λ e u. Unit {0}) q t
          → After (λ _ u. IsStored (token_transfers start end_) date u) (λ e u. Unit {0}) q t
          → After (λ r _. IsChecked r) (λ e u. Unit {0}) q t
          → After IsPublished (λ e u. Unit {0}) q t
      go (raised e) t a b c d h = tt
      go (ok r) t a b c d h =
          let says = pass_says r.blocks_stats r.receipts_stats r.transfer_file_size h.0 in
          record {
            blocks_stored = a;
            transactions_stored = b;
            receipts_stored = c;
            transfers_stored = d;
            consistent = says.0;
            sizes = says.1;
            of_date = h.1;
          }
