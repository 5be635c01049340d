-- ===== src/Lake/Files.antt =====
-- The local files of storage/etl, the uploads to the bucket, and storage/utils/shell.py. A file is
-- named by what the code puts into its name.
pub mod Laws
use eth_project.Prelude.{
  ℕ, String, ◌≡◌, Bool, true, false, not, ◌&&◌, List, [], ◌∷◌, ◌++◌, ◌==◌, any_of, select,
  if◌then◌else◌,
}
use eth_project.Action.{
  Action, ok, raised, process_error, file_not_found, cloud_error, call, pure, ◌>>=◌, ◌>>◌,
}

-- f"blocks_{start}_{end}.json" and the others; `whale_hashes` is
-- tx_file.replace(".json", "_whale_hashes.txt").
pub data FileName : Type 0 where
  blocks transactions receipts token_transfers contracts : ℕ → ℕ → FileName
  whale_hashes addresses : FileName → FileName

unfoldable pub same_file : FileName → FileName → Bool
same_file (blocks a b) (blocks c d) = a == c && b == d
same_file (transactions a b) (transactions c d) = a == c && b == d
same_file (receipts a b) (receipts c d) = a == c && b == d
same_file (token_transfers a b) (token_transfers c d) = a == c && b == d
same_file (contracts a b) (contracts c d) = a == c && b == d
same_file (whale_hashes f) (whale_hashes g) = same_file f g
same_file (addresses f) (addresses g) = same_file f g
same_file f g = false

-- The lines of a text file, stripped, and its size in bytes.
pub record File : Type 0 where
  pub lines : List String
  pub size : ℕ

-- The working directory, and the objects that were uploaded, with the date of their partition.
pub record Local : Type 0 where
  pub disk : List (FileName × File)
  pub bucket : List (FileName × String × File)

unfoldable pub exists : FileName → Local → Bool
exists name s = any_of (λ e. same_file e.0 name) s.disk

-- The file that was written last under the name.
unfoldable pub read : FileName → List (FileName × File) → Action Local File
read name [] s = (raised file_not_found, s)
read name ((n, file) ∷ rest) s =
    let later = read name rest s in if same_file n name then (ok file, s) else later

-- What a command does: it writes files, and its exit code is 0 or not.
pub record Shell : Type 0 where
  pub writes : List (FileName × File)
  pub succeeds : Bool

unfoldable pub run_shell : Shell → Action Local (Unit {0})
run_shell shell s =
    let t = record s { disk = shell.writes ++ s.disk } in
    if shell.succeeds then (ok tt, t) else (raised process_error, t)

-- `if not Path(name).exists(): raise FileNotFoundError`
unfoldable pub require : FileName → Action Local (Unit {0})
require name s = if exists name s then (ok tt, s) else (raised file_not_found, s)

-- `upload_to_gcs`: the file must be there, and the service must take it.
unfoldable pub upload_to_gcs : Bool → FileName → String → Action Local (Unit {0})
unfolding read
upload_to_gcs accepts name date = do
  file ← (λ s. read name s.disk s)
  call accepts cloud_error (λ s. record s { bucket = s.bucket ++ ((name, date, file) ∷ []) })

unfoldable pub remove_file : FileName → Local → Local
remove_file name s = record s { disk = select (λ e. not (same_file e.0 name)) s.disk }

-- `_cleanup`, by whether `os.remove` returns: an error is only logged.
unfoldable pub cleanup : Bool → FileName → Action Local (Unit {0})
unfolding remove_file
cleanup removable name s = (ok tt, if removable then remove_file name s else s)
