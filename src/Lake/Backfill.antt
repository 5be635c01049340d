-- ===== src/Lake/Backfill.antt =====
-- `run_backfill` of storage/backfill_bq_to_gcs.py: six exports of BigQuery for each day of a range. Days
-- are numbered; whether an export returns is an argument. The model takes fuel for its `while` loop.
pub mod Days
use eth_project.Prelude.{
  ℕ, zero, suc, ◌+◌, ◌≡◌, Bool, true, false, Option, none, some, List, [], ◌∷◌, ◌++◌, String, leb,
  if◌then◌else◌, map,
}

-- An entry of EXPORT_TASKS; `select_clause` is `none` for "*" and else the columns by the names they get.
pub record ExportTask : Type 0 where
  pub table : String
  pub folder : String
  pub time_col : String
  pub select_clause : Option (List String)

unfoldable pub whole_table : String → String → ExportTask
whole_table table time_col = record {
  table = table;
  folder = table;
  time_col = time_col;
  select_clause = none;
}

unfoldable pub export_tasks : List ExportTask
unfolding whole_table
export_tasks =
    whole_table "blocks" "timestamp"
    ∷ whole_table "logs" "block_timestamp"
    ∷ whole_table "token_transfers" "block_timestamp"
    ∷ whole_table "contracts" "block_timestamp"
    ∷ record {
      table = "transactions";
      folder = "transactions";
      time_col = "block_timestamp";
      select_clause = some (
          "hash" ∷ "nonce" ∷ "block_hash" ∷ "block_number" ∷ "transaction_index" ∷ "from_address"
          ∷ "to_address" ∷ "value" ∷ "gas" ∷ "gas_price" ∷ "input" ∷ "block_timestamp"
          ∷ "max_fee_per_gas" ∷ "max_priority_fee_per_gas" ∷ "transaction_type" ∷ []);
    }
    ∷ record {
      table = "transactions";
      folder = "receipts";
      time_col = "block_timestamp";
      select_clause = some (
          "transaction_hash" ∷ "transaction_index" ∷ "block_hash" ∷ "block_number"
          ∷ "cumulative_gas_used" ∷ "gas_used" ∷ "contract_address" ∷ "root" ∷ "status"
          ∷ "effective_gas_price" ∷ []);
    }
    ∷ []

-- One export: the rows of one day of a table into the folder of that day.
pub record Export : Type 0 where
  pub folder : String
  pub day : ℕ

module _ (returns : String → ℕ → Bool) where
  -- The exports of one day that return; one that raises is printed and the next is tried.
  unfoldable pub export_day : List ExportTask → ℕ → List Export
  export_day [] day = []
  export_day (t ∷ ts) day =
      let rest = export_day ts day in
      if returns t.folder day then record { folder = t.folder; day = day } ∷ rest else rest

  -- `while current_dt <= end_dt`; `none` where the fuel is spent.
  unfoldable pub backfill_from : (fuel current end_ : ℕ) → List Export → Option (List Export)
  backfill_from zero current end_ stored = none
  backfill_from (suc fuel) current end_ stored =
      let rest =
        backfill_from fuel (current + 1) end_ (stored ++ export_day export_tasks current) in
      if leb current end_ then rest else some stored

  unfoldable pub run_backfill : (fuel start end_ : ℕ) → Option (List Export)
  run_backfill fuel start end_ = backfill_from fuel start end_ []
