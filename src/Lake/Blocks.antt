-- ===== src/Lake/Blocks.antt =====
-- `export_blocks_and_transactions` of storage/etl/blocks.py.
use eth_project.Prelude.{
  ℕ, String, ◌≡◌, Bool, true, false, Option, none, some, List, [], ◌∷◌, ℤ, pos, ◌+ℤ◌, str_eq,
  if◌then◌else◌,
}
use eth_project.Json.{Json, int, obj, get_field}
use eth_project.Action.{
  Action, Exception, Result, ok, raised, pure, ◌>>=◌, ◌>>◌, finally, on_exception, handled,
}
use eth_project.Lake.Files.{
  FileName, blocks, transactions, Local, Shell, exists, read, run_shell, require, upload_to_gcs,
  cleanup,
}
use eth_project.Lake.Files.Laws.{cleanup-exists, cleanup_keeps}
use eth_project.Lake.Extract.{or_json_error}

-- `json.loads` of a line, and a count as a number: `none` where the sum raises.
pub record CountDecode : Type 0 where
  pub loads : String → Option Json
  pub count_of : Json → Option ℤ

abbrev pub or_int_zero : Option Json → Json
or_int_zero none = int (pos 0)
or_int_zero (some v) = v

abbrev pub line_count : CountDecode → Option Json → Option ℤ
line_count d (some (obj fs)) = d.count_of (or_int_zero (get_field "transaction_count" fs))
line_count d v = none

-- The sum of `transaction_count` over the lines.
unfoldable pub total_transactions : CountDecode → List String → Option ℤ
total_transactions d [] = some (pos 0)
total_transactions d (line ∷ lines) =
    let rest = total_transactions d lines in
    if str_eq line "" then rest else elim (line_count d (d.loads line)) [
      | none ↦ none
      | some n ↦ elim rest [ none ↦ none | some m ↦ some (n +ℤ m) ]
    ]

pub record BlocksEnv : Type 0 where
  pub shell : Shell
  pub accepts_blocks : Bool
  pub accepts_transactions : Bool
  pub removable : FileName → Bool

pub record BlocksResult : Type 0 where
  pub tx_file : FileName
  pub total_tx_in_blocks : ℤ
  pub tx_file_size : ℕ
  pub block_file_size : ℕ

-- Where the run raised, neither file is left; where it returned, the file of the blocks is gone.
pub data Ending (start end_ : ℕ) : Result BlocksResult × Local → Type 0 where
  returned :
      (b : BlocksResult) (t : Local)
      → exists (blocks start end_) t ≡ false
      → Ending start end_ (ok b, t)
  failed :
      (e : Exception) (t : Local)
      → exists (blocks start end_) t ≡ false
      → exists (transactions start end_) t ≡ false
      → Ending start end_ (raised e, t)

module _ (d : CountDecode) (env : BlocksEnv) (start end_ : ℕ) (date : String) where
  -- The body of the `try`.
  unfoldable pub blocks_body : Action Local BlocksResult
  unfolding run_shell require read upload_to_gcs
  blocks_body = do
    run_shell env.shell
    require (blocks start end_)
    require (transactions start end_)
    block ← (λ s. read (blocks start end_) s.disk s)
    total ← (λ s. (or_json_error (total_transactions d block.lines), s))
    tx ← (λ s. read (transactions start end_) s.disk s)
    upload_to_gcs env.accepts_blocks (blocks start end_) date
    upload_to_gcs env.accepts_transactions (transactions start end_) date
    pure (record {
      tx_file = transactions start end_;
      total_tx_in_blocks = total;
      tx_file_size = tx.size;
      block_file_size = block.size;
    })

  unfoldable pub export_blocks_and_transactions : Action Local BlocksResult
  unfolding blocks_body cleanup
  export_blocks_and_transactions =
      finally
        (on_exception blocks_body
          (cleanup (env.removable (transactions start end_)) (transactions start end_)))
        (cleanup (env.removable (blocks start end_)) (blocks start end_))

  after_body-Gone :
      (r : Result BlocksResult) (t : Local)
      → ((f : FileName) → env.removable f ≡ true)
      → Ending start end_ (
          finally
            (λ u.
              handled r
                (cleanup (env.removable (transactions start end_)) (transactions start end_))
                t)
            (cleanup (env.removable (blocks start end_)) (blocks start end_))
            t)
  unfolding cleanup
  after_body-Gone (ok b) t removable =
      rw (removable (blocks start end_)) (returned b _ (cleanup-exists (blocks start end_) t))
  after_body-Gone (raised e) t removable =
      rw (removable (blocks start end_), removable (transactions start end_))
        (failed e _ (cleanup-exists (blocks start end_) _) (
          cleanup_keeps true (transactions start end_) (blocks start end_) _
            (cleanup-exists (transactions start end_) t)))

  -- When the temporary files can be removed: if `export_blocks_and_transactions` raises, wherever it
  -- does, then neither the file of the blocks nor the file of the transactions is left; if it
  -- returns, then the file of the blocks is gone.
  pub export_blocks-Ending :
      (s : Local)
      → ((f : FileName) → env.removable f ≡ true)
      → Ending start end_ (export_blocks_and_transactions s)
  unfolding export_blocks_and_transactions
  export_blocks-Ending s removable = after_body-Gone (blocks_body s).0 (blocks_body s).1 removable
