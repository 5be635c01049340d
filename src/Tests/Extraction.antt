-- ===== src/Tests/Extraction.antt =====
-- The theorems about the extraction into the lake, at concrete inputs.
use eth_project.Prelude.{
  String, ◌≡◌, refl, true, false, Option, none, some, [], ◌∷◌, ℤ, pos, str_eq, if◌then◌else◌,
}
use eth_project.Json.{Json, int, str, obj, Fields, end, field, get_field}
use eth_project.Action.{raised, file_not_found}
use eth_project.Lake.Files.{blocks, transactions, receipts, token_transfers, Local, exists}
use eth_project.Lake.Extract.{Decode, ReceiptsEnv, export_receipts_and_logs, whale_lines}
use eth_project.Lake.Extract.Receipts.{receipts-Gone, receipts_retry}
use eth_project.Lake.Extract.Whales.{Holds, end_of, blank, transaction_line, whale_lines_lem}
use eth_project.Lake.Blocks.{
  CountDecode, BlocksEnv, Ending, export_blocks_and_transactions, export_blocks-Ending,
}
use eth_project.Action.Outcomes.{Ensures}
use eth_project.Lake.Transfers.{
  UploadEnv, Uploaded, export_token_transfers, export_token_transfers_lem,
}

abbrev number_in : Json → Option ℤ
number_in (int n) = some n
number_in v = none

abbrev big : Fields
big = field "hash" (str "0xa") (field "value" (int (pos 100000000000000000000)) end)

abbrev small : Fields
small = field "hash" (str "0xb") (field "value" (int (pos 99999999999999999999)) end)

abbrev line_of : String → Option Json
line_of line =
    if str_eq line "big"
    then some (obj big)
    else if str_eq line "small"
    then some (obj small)
    else none

abbrev decode_lines : Decode
decode_lines = record { loads = line_of; int_of = number_in; text_size = λ hashes. 0 }

two_lines :
    Holds decode_lines
      ("big" ∷ "" ∷ "small" ∷ [])
      (("0xa", pos 100000000000000000000) ∷ ("0xb", pos 99999999999999999999) ∷ [])
unfolding get_field
two_lines = transaction_line "big" "0xa" big (pos 100000000000000000000) refl refl refl refl (
    blank "" refl
      (transaction_line "small" "0xb" small (pos 99999999999999999999) refl refl refl refl end_of))

whale_lines_lem_example : whale_lines decode_lines ("big" ∷ "" ∷ "small" ∷ []) ≡ some ("0xa" ∷ [])
whale_lines_lem_example =
    whale_lines_lem decode_lines ("big" ∷ "" ∷ "small" ∷ [])
      (("0xa", pos 100000000000000000000) ∷ ("0xb", pos 99999999999999999999) ∷ []) two_lines

-- The command fails, and leaves a part of its output.
abbrev failing_run : ReceiptsEnv
failing_run = record {
  writable = true;
  shell = record {
    writes = (receipts 5 6, record { lines = []; size = 0 }) ∷ [];
    succeeds = false;
  };
  accepts = true;
  removable = λ f. true;
}

abbrev good_run : ReceiptsEnv
good_run = record failing_run {
  shell = record {
    writes = (receipts 5 6, record { lines = "r" ∷ []; size = 9 }) ∷ [];
    succeeds = true;
  };
}

abbrev with_transactions : Local
with_transactions = record {
  disk = (transactions 5 6, record { lines = "big" ∷ "small" ∷ []; size = 100 }) ∷ [];
  bucket = [];
}

receipts-Gone_example :
    (exists
        (transactions 5 6)
        (export_receipts_and_logs decode_lines failing_run
          (transactions 5 6)
          5
          6
          "d"
          with_transactions).1
      ≡ false)
    × (exists
          (receipts 5 6)
          (export_receipts_and_logs decode_lines failing_run
            (transactions 5 6)
            5
            6
            "d"
            with_transactions).1
        ≡ false)
receipts-Gone_example =
    receipts-Gone decode_lines failing_run (transactions 5 6) 5 6 "d" with_transactions (λ f. refl)

receipts_retry_example :
    (export_receipts_and_logs decode_lines good_run
      (transactions 5 6)
      5
      6
      "d"
      (export_receipts_and_logs decode_lines failing_run
        (transactions 5 6)
        5
        6
        "d"
        with_transactions).1).0
    ≡ raised file_not_found
receipts_retry_example =
    receipts_retry decode_lines failing_run good_run (transactions 5 6) 5 6 "d" with_transactions
      (λ f. refl)

abbrev count_lines_decode : CountDecode
count_lines_decode = record { loads = line_of; count_of = number_in }

-- The upload of the transactions fails.
abbrev refused_upload : BlocksEnv
refused_upload = record {
  shell = record {
    writes =
        (blocks 5 6, record { lines = "small" ∷ []; size = 7 })
        ∷ (transactions 5 6, record { lines = []; size = 8 })
        ∷ [];
    succeeds = true;
  };
  accepts_blocks = true;
  accepts_transactions = false;
  removable = λ f. true;
}

export_blocks-Ending_example :
    Ending 5 6
      (export_blocks_and_transactions count_lines_decode refused_upload 5 6 "d" with_transactions)
export_blocks-Ending_example =
    export_blocks-Ending count_lines_decode refused_upload 5 6 "d" with_transactions (λ f. refl)

abbrev good_upload : UploadEnv
good_upload = record {
  shell = record {
    writes = (token_transfers 5 6, record { lines = "t" ∷ []; size = 3 }) ∷ [];
    succeeds = true;
  };
  accepts = true;
  removable = true;
}

export_token_transfers_lem_example :
    Ensures
      (λ r t.
        (r.0 ≡ token_transfers 5 6)
        × Uploaded good_upload (token_transfers 5 6) "d" with_transactions t)
      (λ _ t. exists (token_transfers 5 6) t ≡ false)
      (export_token_transfers good_upload 5 6 "d")
      with_transactions
export_token_transfers_lem_example =
    export_token_transfers_lem good_upload 5 6 "d" with_transactions refl
