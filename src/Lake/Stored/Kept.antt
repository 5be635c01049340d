-- ===== src/Lake/Stored/Kept.antt =====
-- The exports of storage/etl take no object out of the bucket.
use eth_project.Prelude.{
  ℕ, String, Bool, true, false, Option, none, some, List, inl, inr, Bool-cases, if◌then◌else◌, ◌==◌,
}
use eth_project.Action.{Result, ok, raised}
use eth_project.Lake.Files.{FileName, receipts, token_transfers, whale_hashes, exists}
use eth_project.Lake.Stored.{Keeps, Keeps-finally, Keeps-on_exception, Keeps-bind}
use eth_project.Lake.Extract.{
  Decode, ReceiptsEnv, export_receipts_and_logs, extract_tx_hashes, write_hashes, after_hashes,
  receipts_body, receipts_cleanup, no_receipts, fetch_receipts, touch, or_json_error, whale_lines,
}
use eth_project.Lake.Transfers.{UploadEnv, transfers_body, export_token_transfers}
use eth_project.Lake.Stored.Primitives.{
  Keeps-run_shell, Keeps-require, Keeps-read, Keeps-cleanup, Keeps-upload, Keeps-pure, Keeps-result,
}

module _ (name : FileName) (date : String) where
  pub Keeps-export_token_transfers :
      (env : UploadEnv) (start end_ : ℕ) (day : String)
      → Keeps name date (export_token_transfers env start end_ day)
  unfolding export_token_transfers transfers_body
  Keeps-export_token_transfers env start end_ day =
      Keeps-bind name date _ _
        (Keeps-on_exception name date (transfers_body env (token_transfers start end_) day) _
          (Keeps-bind name date _ _ (Keeps-run_shell name date env.shell) (λ _.
            Keeps-bind name date _ _ (Keeps-require name date (token_transfers start end_)) (λ _.
              Keeps-bind name date _ _
                (Keeps-upload name date env.accepts (token_transfers start end_) day)
                (λ _.
                  Keeps-bind name date _ _ (Keeps-read name date (token_transfers start end_))
                    (λ f. Keeps-pure name date f.size)))))
          (Keeps-cleanup name date env.removable (token_transfers start end_)))
        (λ size. Keeps-pure name date (token_transfers start end_, size))

  Keeps-write_hashes :
      (d : Decode) (writable : Bool) (hash_file : FileName) (hashes : List String)
      → Keeps name date (write_hashes d writable hash_file hashes)
  unfolding write_hashes Keeps
  Keeps-write_hashes d true hash_file hashes s h = h
  Keeps-write_hashes d false hash_file hashes s h = h

  pub Keeps-extract_tx_hashes :
      (d : Decode) (writable : Bool) (tx_file : FileName)
      → Keeps name date (extract_tx_hashes d writable tx_file)
  unfolding extract_tx_hashes
  Keeps-extract_tx_hashes d writable tx_file =
      Keeps-bind name date _ _ (Keeps-read name date tx_file) (λ file.
        Keeps-bind name date _ _ (Keeps-result name date (or_json_error (whale_lines d file.lines)))
          (λ hashes. Keeps-write_hashes d writable (whale_hashes tx_file) hashes))

  pub Keeps-receipts_cleanup :
      (env : ReceiptsEnv) (tx_file : FileName) (hash_file : Option FileName)
      (receipt_file : FileName)
      → Keeps name date (receipts_cleanup env tx_file hash_file receipt_file)
  unfolding receipts_cleanup Keeps
  Keeps-receipts_cleanup env tx_file none receipt_file s h =
      Keeps-cleanup name date (env.removable receipt_file) receipt_file _
        (Keeps-cleanup name date (env.removable tx_file) tx_file s h)
  Keeps-receipts_cleanup env tx_file (some hash_file) receipt_file s h =
      Keeps-cleanup name date (env.removable receipt_file) receipt_file _ (
        Keeps-cleanup name date (env.removable hash_file) hash_file _
          (Keeps-cleanup name date (env.removable tx_file) tx_file s h))

  Keeps-no_receipts : (receipt_file : FileName) → Keeps name date (no_receipts receipt_file)
  unfolding no_receipts touch Keeps
  Keeps-no_receipts receipt_file s h = elim (Bool-cases (exists receipt_file s)) [
    | inl e ↦ rw e h
    | inr e ↦ rw e h
  ]

  Keeps-fetch_receipts :
      (env : ReceiptsEnv) (receipt_file : FileName) (count : ℕ)
      → Keeps name date (fetch_receipts env receipt_file count)
  unfolding fetch_receipts
  Keeps-fetch_receipts env receipt_file count =
      Keeps-bind name date _ _ (Keeps-run_shell name date env.shell) (λ _.
        Keeps-bind name date _ _ (Keeps-require name date receipt_file) (λ _.
          Keeps-bind name date _ _ (Keeps-read name date receipt_file)
            (λ file. Keeps-pure name date _)))

  Keeps-stats :
      (env : ReceiptsEnv) (receipt_file : FileName) (count : ℕ) (none_there : Bool)
      → Keeps name date
          (if none_there then no_receipts receipt_file else fetch_receipts env receipt_file count)
  Keeps-stats env receipt_file count true = Keeps-no_receipts receipt_file
  Keeps-stats env receipt_file count false = Keeps-fetch_receipts env receipt_file count

  Keeps-receipts_body :
      (env : ReceiptsEnv) (receipt_file : FileName) (day : String) (count : ℕ)
      → Keeps name date (receipts_body env receipt_file day count)
  unfolding receipts_body
  Keeps-receipts_body env receipt_file day count =
      Keeps-bind name date _ _ (Keeps-stats env receipt_file count (count == 0)) (λ stats.
        Keeps-bind name date _ _ (Keeps-upload name date env.accepts receipt_file day)
          (λ _. Keeps-pure name date stats))

  Keeps-after_hashes :
      (env : ReceiptsEnv) (tx_file receipt_file : FileName) (day : String)
      (r : Result (FileName × ℕ))
      → Keeps name date (after_hashes env tx_file receipt_file day r)
  unfolding after_hashes
  Keeps-after_hashes env tx_file receipt_file day (ok (hash_file, count)) =
      Keeps-finally name date _ _ (Keeps-receipts_body env receipt_file day count)
        (Keeps-receipts_cleanup env tx_file (some hash_file) receipt_file)
  Keeps-after_hashes env tx_file receipt_file day (raised e) =
      Keeps-finally name date _ _ (Keeps-result name date (raised e))
        (Keeps-receipts_cleanup env tx_file none receipt_file)

  pub Keeps-export_receipts_and_logs :
      (d : Decode) (env : ReceiptsEnv) (tx_file : FileName) (start end_ : ℕ) (day : String)
      → Keeps name date (export_receipts_and_logs d env tx_file start end_ day)
  unfolding export_receipts_and_logs Keeps
  Keeps-export_receipts_and_logs d env tx_file start end_ day s h =
      Keeps-after_hashes env tx_file (receipts start end_) day
        (extract_tx_hashes d env.writable tx_file s).0 _
        (Keeps-extract_tx_hashes d env.writable tx_file s h)
