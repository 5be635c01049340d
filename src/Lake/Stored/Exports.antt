-- ===== src/Lake/Stored/Exports.antt =====
-- The exports of storage/etl put their files into the bucket.
use eth_project.Prelude.{ℕ, String, none, some, if◌then◌else◌, ◌==◌, ℤ}
use eth_project.Action.{Result, ok, raised, pure, ◌>>◌}
use eth_project.Lake.Files.{
  FileName, blocks, transactions, receipts, token_transfers, File, read, run_shell, require,
  upload_to_gcs,
}
use eth_project.Lake.Stored.{
  Stores, Keeps-bind, Stores-finally, Stores-on_exception, Stores-bind, Stores-first,
}
use eth_project.Lake.Extract.{
  Decode, ReceiptsEnv, ReceiptStats, export_receipts_and_logs, extract_tx_hashes, after_hashes,
  receipts_body, no_receipts, fetch_receipts, or_json_error,
}
use eth_project.Lake.Blocks.{
  CountDecode, BlocksEnv, BlocksResult, blocks_body, export_blocks_and_transactions,
  total_transactions,
}
use eth_project.Lake.Transfers.{UploadEnv, transfers_body, export_token_transfers}
use eth_project.Lake.Stored.Primitives.{
  Keeps-read, Keeps-cleanup, Keeps-upload, Stores-upload, Keeps-pure, Stores-raised,
}
use eth_project.Lake.Stored.Kept.{Keeps-receipts_cleanup}

module _ (name : FileName) (date : String) where
  Stores-transfers_body : (env : UploadEnv) → Stores name date (transfers_body env name date)
  unfolding transfers_body
  Stores-transfers_body env = Stores-bind name date (run_shell env.shell) _ (λ _.
      Stores-bind name date (require name) _ (λ _.
        Stores-first name date _ _ (Stores-upload name date env.accepts) (λ _.
          Keeps-bind name date _ _ (Keeps-read name date name) (λ f. Keeps-pure name date _))))

  Stores-receipts_body :
      (env : ReceiptsEnv) (day : String) (count : ℕ)
      → Stores name date (receipts_body env name date count)
  unfolding receipts_body
  Stores-receipts_body env day count =
      Stores-bind name date (if count == 0 then no_receipts name else fetch_receipts env name count)
        _
        (λ stats.
          Stores-first name date _ _ (Stores-upload name date env.accepts)
            (λ _. Keeps-pure name date stats))

  Stores-after_hashes :
      (env : ReceiptsEnv) (tx_file : FileName) (r : Result (FileName × ℕ))
      → Stores name date (after_hashes env tx_file name date r)
  unfolding after_hashes
  Stores-after_hashes env tx_file (ok (hash_file, count)) =
      Stores-finally name date _ _ (Stores-receipts_body env date count)
        (Keeps-receipts_cleanup name date env tx_file (some hash_file) name)
  Stores-after_hashes env tx_file (raised e) =
      Stores-finally name date _ _ (Stores-raised name date ReceiptStats e)
        (Keeps-receipts_cleanup name date env tx_file none name)

module _ (start end_ : ℕ) (date : String) (d : CountDecode) (env : BlocksEnv) where
  abbrev stats : ℤ → File → File → BlocksResult
  stats total tx block = record {
    tx_file = transactions start end_;
    total_tx_in_blocks = total;
    tx_file_size = tx.size;
    block_file_size = block.size;
  }

  -- What the body of the export does before it uploads.
  before_uploads :
      (name : FileName)
      → ((total : ℤ) (tx block : File)
          → Stores name date (do
            upload_to_gcs env.accepts_blocks (blocks start end_) date
            upload_to_gcs env.accepts_transactions (transactions start end_) date
            pure (stats total tx block)))
      → Stores name date (blocks_body d env start end_ date)
  unfolding blocks_body
  before_uploads name uploads = Stores-bind name date (run_shell env.shell) _ (λ _.
      Stores-bind name date (require (blocks start end_)) _ (λ _.
        Stores-bind name date (require (transactions start end_)) _ (λ _.
          Stores-bind name date (λ s. read (blocks start end_) s.disk s) _
            (λ block.
              Stores-bind name date (λ s. (or_json_error (total_transactions d block.lines), s)) _
                (λ total.
                  Stores-bind name date (λ s. read (transactions start end_) s.disk s) _
                    (λ tx. uploads total tx block))))))

  pub Stores-blocks :
      Stores (blocks start end_) date (export_blocks_and_transactions d env start end_ date)
  unfolding export_blocks_and_transactions
  Stores-blocks =
      let name = blocks start end_ in
      Stores-finally name date _ _
        (Stores-on_exception name date _ _ (
          before_uploads name (λ total tx block.
            Stores-first name date _ _ (Stores-upload name date env.accepts_blocks) (λ _.
              Keeps-bind name date _ _
                (Keeps-upload name date env.accepts_transactions (transactions start end_) date)
                (λ _. Keeps-pure name date _)))))
        (Keeps-cleanup name date (env.removable (blocks start end_)) (blocks start end_))

  pub Stores-transactions :
      Stores (transactions start end_) date (export_blocks_and_transactions d env start end_ date)
  unfolding export_blocks_and_transactions
  Stores-transactions =
      let name = transactions start end_ in
      Stores-finally name date _ _
        (Stores-on_exception name date _ _ (
          before_uploads name (λ total tx block.
            Stores-bind name date (upload_to_gcs env.accepts_blocks (blocks start end_) date) _
              (λ _.
                Stores-first name date _ _ (Stores-upload name date env.accepts_transactions)
                  (λ _. Keeps-pure name date _)))))
        (Keeps-cleanup name date (env.removable (blocks start end_)) (blocks start end_))

module _ (start end_ : ℕ) (date : String) where
  pub Stores-receipts :
      (d : Decode) (env : ReceiptsEnv) (tx_file : FileName)
      → Stores (receipts start end_) date (export_receipts_and_logs d env tx_file start end_ date)
  unfolding export_receipts_and_logs Stores
  Stores-receipts d env tx_file s =
      Stores-after_hashes (receipts start end_) date env tx_file
        (extract_tx_hashes d env.writable tx_file s).0
        (extract_tx_hashes d env.writable tx_file s).1

  pub Stores-transfers :
      (env : UploadEnv)
      → Stores (token_transfers start end_) date (export_token_transfers env start end_ date)
  unfolding export_token_transfers
  Stores-transfers env =
      let name = token_transfers start end_ in
      Stores-first name date _ _
        (Stores-on_exception name date _ _ (Stores-transfers_body name date env))
        (λ size. Keeps-pure name date (name, size))
