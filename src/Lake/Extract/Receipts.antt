-- ===== src/Lake/Extract/Receipts.antt =====
-- What `export_receipts_and_logs` leaves in the working directory, and what a retry of it finds.
use eth_project.Prelude.{
  ℕ, String, ◌≡◌, refl, Bool, true, false, Option, none, some, List, [], ◌∷◌, arith, any_of,
}
use eth_project.Action.{Action, Result, ok, raised, file_not_found, finally, continue}
use eth_project.Lake.Files.{FileName, receipts, File, Local, exists, read, cleanup, same_file}
use eth_project.Lake.Files.Laws.{cleanup-exists, cleanup_keeps}
use eth_project.Lake.Extract.{
  Decode, ReceiptsEnv, ReceiptStats, receipts_cleanup, after_hashes, receipts_body,
  extract_tx_hashes, export_receipts_and_logs,
}

read_absent :
    (name : FileName) (disk : List (FileName × File)) (s : Local)
    → any_of (λ e. same_file e.0 name) disk ≡ false
    → read name disk s ≡ (raised file_not_found, s)
unfolding read
read_absent name [] s h = refl
read_absent name (e ∷ disk) s h = ground (arith, read_absent name disk s)

last_state :
    {A : Type 0} (x : Result A) (r : Result (Unit {0})) (t : Local)
    → (continue r (λ _ u. (x, u)) t).1 ≡ t
last_state x (ok a) t = refl
last_state x (raised e) t = refl

module _ (env : ReceiptsEnv) (tx_file receipt_file : FileName)
    (removable : (f : FileName) → env.removable f ≡ true) where
  Gone : Local → Type 0
  Gone s = (exists tx_file s ≡ false) × (exists receipt_file s ≡ false)

  receipts_cleanup-Gone :
      (h : Option FileName) (s : Local) → Gone (receipts_cleanup env tx_file h receipt_file s).1
  unfolding receipts_cleanup Gone
  receipts_cleanup-Gone none s =
      rw (removable tx_file, removable receipt_file)
        (
          cleanup_keeps true tx_file receipt_file _ (cleanup-exists tx_file s),
          cleanup-exists receipt_file _,
        )
  receipts_cleanup-Gone (some h) s =
      rw (removable tx_file, removable receipt_file, removable h)
        (
          cleanup_keeps true tx_file receipt_file _
              (cleanup_keeps true tx_file h _ (cleanup-exists tx_file s)),
          cleanup-exists receipt_file _,
        )

  finally-Gone :
      (m : Action Local ReceiptStats) (h : Option FileName) (s : Local)
      → Gone (finally m (receipts_cleanup env tx_file h receipt_file) s).1
  finally-Gone m h s =
      rw
        (last_state (m s).0 (receipts_cleanup env tx_file h receipt_file (m s).1).0
          (receipts_cleanup env tx_file h receipt_file (m s).1).1)
        (receipts_cleanup-Gone h (m s).1)

  after_hashes-Gone :
      (date : String) (r : Result (FileName × ℕ)) (t : Local)
      → Gone (after_hashes env tx_file receipt_file date r t).1
  unfolding after_hashes
  after_hashes-Gone date (ok (h, n)) t =
      finally-Gone (receipts_body env receipt_file date n) (some h) t
  after_hashes-Gone date (raised e) t = finally-Gone (λ s. (raised e, s)) none t

-- Whatever happens in `export_receipts_and_logs`, when the temporary files can be removed then the
-- file of the transactions and the file of the receipts are gone after it.
pub receipts-Gone :
    (d : Decode) (env : ReceiptsEnv) (tx_file : FileName) (start end_ : ℕ) (date : String)
    (s : Local)
    → ((f : FileName) → env.removable f ≡ true)
    → (exists tx_file (export_receipts_and_logs d env tx_file start end_ date s).1 ≡ false)
      × (exists (receipts start end_) (export_receipts_and_logs d env tx_file start end_ date s).1
          ≡ false)
unfolding export_receipts_and_logs Gone
receipts-Gone d env tx_file start end_ date s removable =
    after_hashes-Gone env tx_file (receipts start end_) removable date
      (extract_tx_hashes d env.writable tx_file s).0 (extract_tx_hashes d env.writable tx_file s).1

extract_absent :
    (d : Decode) (writable : Bool) (tx_file : FileName) (s : Local)
    → exists tx_file s ≡ false
    → extract_tx_hashes d writable tx_file s ≡ (raised file_not_found, s)
unfolding extract_tx_hashes exists
extract_absent d writable tx_file s h = rw (read_absent tx_file s.disk s h) refl

receipts_absent :
    (d : Decode) (env : ReceiptsEnv) (tx_file : FileName) (start end_ : ℕ) (date : String)
    (s : Local)
    → exists tx_file s ≡ false
    → (export_receipts_and_logs d env tx_file start end_ date s).0 ≡ raised file_not_found
unfolding export_receipts_and_logs after_hashes receipts_cleanup cleanup
receipts_absent d env tx_file start end_ date s h =
    rw (extract_absent d env.writable tx_file s h) refl

-- A second call for the same file of transactions, as the retry of a failed task makes it, raises
-- `FileNotFoundError`: the first call removed the file, whether it succeeded or failed.
pub receipts_retry :
    (d : Decode) (env again : ReceiptsEnv) (tx_file : FileName) (start end_ : ℕ) (date : String)
    (s : Local)
    → ((f : FileName) → env.removable f ≡ true)
    → (export_receipts_and_logs d again tx_file start end_ date
        (export_receipts_and_logs d env tx_file start end_ date s).1).0
      ≡ raised file_not_found
receipts_retry d env again tx_file start end_ date s removable =
    receipts_absent d again tx_file start end_ date _
      (receipts-Gone d env tx_file start end_ date s removable).0
