-- ===== src/Lake/Extract.antt =====
-- storage/etl/receipts.py and storage/etl/blocks.py.
pub mod Receipts
pub mod Whales
use eth_project.Prelude.{
  ℕ, suc, ◌+◌, ◌*◌, ◌^◌, String, Bool, true, false, not, Option, none, some, List, [], ◌∷◌, ◌++◌, ℤ,
  pos, leb_ℤ, ◌+ℤ◌, ◌==◌, length, select, str_eq, if◌then◌else◌,
}
use eth_project.Json.{Json, null, int, str, obj, Fields, get_field}
use eth_project.Action.{
  Action, Result, ok, raised, json_error, os_error, pure, continue, call, ◌>>=◌, ◌>>◌, finally,
  on_exception,
}
use eth_project.Lake.Files.{
  FileName, blocks, transactions, receipts, whale_hashes, File, Local, Shell, exists, read,
  run_shell, require, upload_to_gcs, cleanup,
}

-- `json.loads` of a line and `int` of a value, with `none` where they raise, and the size of a text.
pub record Decode : Type 0 where
  pub loads : String → Option Json
  pub int_of : Json → Option ℤ
  pub text_size : List String → ℕ

abbrev pub wei_threshold : ℤ
wei_threshold = pos (100 * 10 ^ 18)

abbrev pub or_zero : Option Json → Json
or_zero none = str "0"
or_zero (some v) = v

abbrev pub hash_text : Option Json → Option String
hash_text (some (str h)) = some h
hash_text v = none

-- The hash of a whale; nothing for another transaction.
abbrev pub whale_hash : Fields → Option ℤ → Option (List String)
whale_hash fs none = none
whale_hash fs (some value) =
    if leb_ℤ wei_threshold value
    then elim (hash_text (get_field "hash" fs)) [ none ↦ none | some h ↦ some (h ∷ []) ]
    else some []

abbrev pub line_hash : Decode → Option Json → Option (List String)
line_hash d (some (obj fs)) = whale_hash fs (d.int_of (or_zero (get_field "value" fs)))
line_hash d v = none

-- The loop over the lines; `none` where one of them raises.
unfoldable pub whale_lines : Decode → List String → Option (List String)
whale_lines d [] = some []
whale_lines d (line ∷ lines) =
    let rest = whale_lines d lines in
    if str_eq line "" then rest else elim (line_hash d (d.loads line)) [
      | none ↦ none
      | some hs ↦ elim rest [ none ↦ none | some more ↦ some (hs ++ more) ]
    ]

abbrev pub or_json_error {ℓ} : {A : Type ℓ} → Option A → Result A
or_json_error none = raised json_error
or_json_error (some a) = ok a

unfoldable pub write_hashes : Decode → Bool → FileName → List String → Action Local (FileName × ℕ)
write_hashes d writable hash_file hashes =
    ◌>>=◌
      (call writable os_error (λ s. record s {
        disk = (hash_file, record { lines = hashes; size = d.text_size hashes }) ∷ s.disk;
      }))
      (λ _. pure (hash_file, length hashes))

-- `_extract_tx_hashes`
unfoldable pub extract_tx_hashes : Decode → Bool → FileName → Action Local (FileName × ℕ)
unfolding write_hashes
extract_tx_hashes d writable tx_file = do
  file ← (λ s. read tx_file s.disk s)
  hashes ← (λ s. (or_json_error (whale_lines d file.lines), s))
  write_hashes d writable (whale_hashes tx_file) hashes

-- What the calls of one run do.
pub record ReceiptsEnv : Type 0 where
  pub writable : Bool
  pub shell : Shell
  pub accepts : Bool
  pub removable : FileName → Bool

pub record ReceiptStats : Type 0 where
  pub whale_count : ℕ
  pub receipt_count : ℕ
  pub receipt_file_size : ℕ

-- Path.touch
unfoldable pub touch : FileName → Local → Local
touch name s =
    if exists name s
    then s
    else record s { disk = (name, record { lines = []; size = 0 }) ∷ s.disk }

unfoldable pub count_lines : List String → ℕ
count_lines lines = length (select (λ line. not (str_eq line "")) lines)

unfoldable pub no_receipts : FileName → Action Local ReceiptStats
unfolding touch
no_receipts receipt_file s = (
  ok (record { whale_count = 0; receipt_count = 0; receipt_file_size = 0 }),
  touch receipt_file s,
)

unfoldable pub fetch_receipts : ReceiptsEnv → FileName → ℕ → Action Local ReceiptStats
unfolding run_shell require read count_lines
fetch_receipts env receipt_file whale_count = do
  run_shell env.shell
  require receipt_file
  file ← (λ s. read receipt_file s.disk s)
  pure (record {
    whale_count = whale_count;
    receipt_count = count_lines file.lines;
    receipt_file_size = file.size;
  })

-- The `try` after the hashes are there.
unfoldable pub receipts_body : ReceiptsEnv → FileName → String → ℕ → Action Local ReceiptStats
unfolding no_receipts fetch_receipts upload_to_gcs
receipts_body env receipt_file date whale_count = do
  stats ←
      if whale_count == 0
      then no_receipts receipt_file
      else fetch_receipts env receipt_file whale_count
  upload_to_gcs env.accepts receipt_file date
  pure stats

-- The `finally`; `hash_file` is empty where the extraction of the hashes raised.
unfoldable pub receipts_cleanup :
    ReceiptsEnv → FileName → Option FileName → FileName → Action Local (Unit {0})
unfolding cleanup
receipts_cleanup env tx_file none receipt_file s =
    cleanup (env.removable receipt_file) receipt_file (cleanup (env.removable tx_file) tx_file s).1
receipts_cleanup env tx_file (some hash_file) receipt_file s =
    cleanup (env.removable receipt_file) receipt_file
      (cleanup (env.removable hash_file) hash_file (cleanup (env.removable tx_file) tx_file s).1).1

unfoldable pub after_hashes :
    ReceiptsEnv → FileName → FileName → String → Result (FileName × ℕ) → Action Local ReceiptStats
unfolding receipts_body receipts_cleanup
after_hashes env tx_file receipt_file date (ok (hash_file, whale_count)) =
    finally (receipts_body env receipt_file date whale_count)
      (receipts_cleanup env tx_file (some hash_file) receipt_file)
after_hashes env tx_file receipt_file date (raised e) =
    finally (λ s. (raised e, s)) (receipts_cleanup env tx_file none receipt_file)

unfoldable pub export_receipts_and_logs :
    Decode → ReceiptsEnv → FileName → ℕ → ℕ → String → Action Local ReceiptStats
unfolding extract_tx_hashes after_hashes
export_receipts_and_logs d env tx_file start end_ date s =
    let (r, t) = extract_tx_hashes d env.writable tx_file s in
    after_hashes env tx_file (receipts start end_) date r t
