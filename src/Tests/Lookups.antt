-- ===== src/Tests/Lookups.antt =====
-- The theorems about the ranges of days, the backfill and the loading of files, at concrete inputs.
use eth_project.Prelude.{
  ℕ, ◌*◌, ◌≤◌, ◌<◌, ◌≡◌, ◌↔◌, refl, true, Option, none, some, List, [], ◌∷◌, String, str_eq, arith,
  pos, ◌≤ℤ◌, ◌==◌, ◌+◌, ◌-◌, ◌&&◌, any_of, Bool, if◌then◌else◌,
}
use eth_project.Lake.Lookup.{Service, Range, day_length, block_of_reply, block_range}
use eth_project.Lake.Lookup.Days.{Answers, block_range_lem}
use eth_project.Lake.Backfill.{Export, ExportTask, export_tasks, run_backfill}
use eth_project.Lake.Backfill.Days.{run_backfill_lem, has_export, in_range}
use eth_project.Backend.Loading.{
  CsvLabel, load_known_label_from_csv, CsvToken, Token, rows, row_of, token_record,
  load_tokens_from_csv, load_tokens_to_es, executemany, upsert_all, upsert, decimals_of,
}
use eth_project.Backend.Loading.Upserts.{
  last_of, or_old, stored_token, stored_label, load_tokens_lem,
}

-- Two blocks a day, of which the second day has blocks 2 and 3.
abbrev block_time : ℕ → ℕ
block_time n = n * 43200

abbrev read_two : String → Option ℕ
read_two s = if str_eq s "2" then some 2 else if str_eq s "4" then some 4 else none

abbrev etherscan : Service
etherscan t closest = some (record { status = "1"; result = if t == 86400 then "2" else "4" })

first_answer : Answers read_two etherscan block_time (1 * day_length) 2
unfolding block_of_reply
first_answer = (refl, (omega arith, λ m l. omega (arith, l)))

next_answer : Answers read_two etherscan block_time (2 * day_length) 4
unfolding block_of_reply
next_answer = (refl, (omega arith, λ m l. omega (arith, l)))

block_range_lem_example :
    (r : Range) × (block_range read_two etherscan (some "key") 200000000000 200000000000 1 ≡ some r)
    × ((n : ℕ)
        → ((Range.start r ≤ n) × (pos n ≤ℤ Range.end_ r))
          ↔ ((1 * day_length ≤ block_time n) × (block_time n < 2 * day_length)))
block_range_lem_example =
    block_range_lem read_two etherscan block_time "key" 200000000000 200000000000 1 2 4 refl
      (omega arith) (omega arith) (λ m n l. omega (arith, l)) first_answer next_answer

abbrev csv_row : String → String → CsvToken
csv_row address symbol = record {
  address = address;
  symbol = symbol;
  name = symbol;
  decimals = "6";
}

abbrev csv_rows : List CsvToken
csv_rows = csv_row "0xa" "OLD" ∷ csv_row "0xb" "B" ∷ csv_row "0xA" "NEW" ∷ []

abbrev six : String → Option ℕ
six s = some 6

-- The only upper case letter is that of "0xA".
abbrev lower_a : String → String
lower_a s = if str_eq s "0xA" then "0xa" else s

abbrev label_rows : List CsvLabel
label_rows = record { address = "0xA"; name = "A"; category = "CEX" } ∷ []

load_tokens_lem_example :
    (row_of Token.address "0xa" (load_tokens_from_csv lower_a six true (rows csv_rows) []).1
      ≡ or_old
          (stored_token six "0xa")
          (row_of Token.address "0xa" [])
          (last_of (λ r. str_eq "0xa" (lower_a (CsvToken.address r))) csv_rows))
    × (row_of Token.address "0xa" (load_tokens_to_es lower_a six none (rows csv_rows) []).1
        ≡ or_old
            (stored_token six "0xa")
            (row_of Token.address "0xa" [])
            (last_of (λ r. str_eq "0xa" (lower_a (CsvToken.address r))) csv_rows))
    × (row_of CsvLabel.address "0xa"
          (load_known_label_from_csv lower_a six true (rows label_rows) []).1
        ≡ or_old
            (stored_label "0xa")
            (row_of CsvLabel.address "0xa" [])
            (last_of (λ r. str_eq "0xa" (lower_a (CsvLabel.address r))) label_rows))
load_tokens_lem_example = load_tokens_lem lower_a six csv_rows [] label_rows [] "0xa"

load_run :
    row_of Token.address "0xa" (load_tokens_from_csv lower_a six true (rows csv_rows) []).1
    ≡ some (stored_token six "0xa" (csv_row "0xA" "NEW"))
unfolding load_tokens_from_csv executemany upsert_all upsert row_of token_record decimals_of
load_run = refl

-- Only the blocks can be exported.
abbrev only_blocks : String → ℕ → Bool
only_blocks folder day = str_eq folder "blocks"

run_backfill_lem_example :
    (l : List Export) × (run_backfill only_blocks 4 3 (3 + 2 - 1) ≡ some l)
    × (has_export only_blocks "blocks" 4 l ≡ (
        in_range 3 2 4
        && any_of
            (λ t. str_eq (ExportTask.folder t) "blocks" && only_blocks (ExportTask.folder t) 4)
            export_tasks))
run_backfill_lem_example = run_backfill_lem only_blocks 4 3 2 "blocks" 4 (omega arith) (omega arith)
