-- ===== src/Silver/Checks.antt =====
-- The quality checks of the silver tables (silver/check) and the job that runs them
-- (jobs/silver_quality_check_job.py). A query that names a column which its table's schema
-- (schema/silver_schema.py) does not have raises AnalysisException. The tests of floats are
-- parameters, but for the retention, whose quotient of two counts is compared exactly.
pub mod Gate
use eth_project.Prelude.{
  ℕ, ◌+◌, ◌*◌, ◌≤◌, ◌≡◌, refl, ◌↔◌, String, str_eq, Bool, true, false, ◌&&◌, ◌||◌, not, Option,
  none, some, List, [], ◌∷◌, ◌++◌, any_of, ltb, leb, ◌==◌, if◌then◌else◌, arith, Bool-cases, inl,
  inr, ℤ, pos, leb_ℤ, select, length, non_empty,
}

unfoldable pub enriched_transaction_schema : List String
enriched_transaction_schema =
    "hash" ∷ "block_number" ∷ "block_timestamp" ∷ "from_address" ∷ "to_address" ∷ "value_eth"
    ∷ "is_success" ∷ "dt" ∷ []

unfoldable pub whale_txn_schema : List String
whale_txn_schema =
    "hash" ∷ "block_timestamp" ∷ "hour" ∷ "dt" ∷ "from_address" ∷ "from_label" ∷ "from_entity"
    ∷ "from_category" ∷ "to_address" ∷ "to_label" ∷ "to_entity" ∷ "to_category" ∷ "value_eth"
    ∷ "cumul_sent_eth" ∷ "cumul_tx_count" ∷ "cumul_recv_eth" ∷ "whale_tier" ∷ "flow_type"
    ∷ "is_private_transaction" ∷ "flag_high_freq" ∷ []

unfoldable pub token_flow_schema : List String
token_flow_schema =
    "transaction_hash" ∷ "block_timestamp" ∷ "hour" ∷ "dt" ∷ "token_address" ∷ "symbol"
    ∷ "token_name" ∷ "from_address" ∷ "from_label" ∷ "from_category" ∷ "to_address" ∷ "to_label"
    ∷ "to_category" ∷ "amount" ∷ []

-- Every column that a query names is in the schema.
unfoldable pub resolves : List String → List String → Bool
resolves schema [] = true
resolves schema (c ∷ cs) = any_of (str_eq c) schema && resolves schema cs

pub data Check : Type 0 where
  passed raised : Check

unfoldable pub and_then : Bool → Check → Check
and_then true rest = rest
and_then false rest = raised

-- `retention_rate >= 0.99`, where the rate of an empty source is 0.
unfoldable pub is_retained : ℕ → ℕ → Bool
is_retained silver bronze = ltb 0 bronze && leb (99 * bronze) (100 * silver)

pub record TxnTests : Type 0 where
  pub low_success : Bool
  pub high_fee : Bool

-- From the two counts, where both tables could be read.
unfoldable pub run_kpi_check : Option (ℕ × ℕ) → TxnTests → Check
run_kpi_check none tests = passed
run_kpi_check (some (silver, bronze)) tests = and_then (is_retained silver bronze) (
    if silver == 0
    then passed
    else and_then
        (resolves enriched_transaction_schema (
          "is_success" ∷ "tx_fee_eth" ∷ "value_eth" ∷ "is_contract_call" ∷ "is_contract_deploy"
          ∷ []))
        (and_then
          (resolves enriched_transaction_schema
            ("from_address" ∷ "to_address" ∷ "tx_type_label" ∷ []))
          (and_then (not (tests.low_success || (ltb silver 1000 || tests.high_fee))) passed)))

unfoldable pub run_token_flow_kpi_check : Option (ℕ × ℕ) → ℕ → Check
run_token_flow_kpi_check none active_tokens = passed
run_token_flow_kpi_check (some (silver, bronze)) active_tokens =
    and_then (is_retained silver bronze) (
      and_then
        (resolves token_flow_schema
          ("token_address" ∷ "from_dex" ∷ "to_dex" ∷ "value_normalized" ∷ []))
        (and_then
          (resolves token_flow_schema (
            "symbol" ∷ "value_normalized" ∷ "block_timestamp" ∷ "from_dex" ∷ "to_dex"
            ∷ "from_address" ∷ "to_address" ∷ "transaction_hash" ∷ []))
          (and_then (not (ltb silver 10 || ltb active_tokens 1)) passed)))

-- The columns of a whale row that the check reads.
pub record WhaleCheckRow : Type 0 where
  pub hash : Option String
  pub from_address : Option String
  pub to_address : Option String
  pub value_eth : Option ℤ

abbrev pub is_null {ℓ} : {A : Type ℓ} → Option A → Bool
is_null none = true
is_null (some x) = false

unfoldable pub has_null : WhaleCheckRow → Bool
has_null r =
    is_null r.hash || (is_null r.from_address || (is_null r.to_address || is_null r.value_eth))

unfoldable pub is_not_positive : Option ℤ → Bool
is_not_positive none = false
is_not_positive (some v) = leb_ℤ v (pos 0)

unfoldable pub has_critical_errors : List WhaleCheckRow → Bool
has_critical_errors rows =
    not (non_empty rows)
    || (any_of has_null rows || any_of (λ r. is_not_positive (WhaleCheckRow.value_eth r)) rows)

-- The rows, where the table could be read; the inner Option says whether Spark could count them.
unfoldable pub run_whale_kpi_check : Option (Option (List WhaleCheckRow)) → Check
run_whale_kpi_check none = passed
run_whale_kpi_check (some none) = raised
run_whale_kpi_check (some (some rows)) = and_then (not (has_critical_errors rows)) (
    and_then
      (resolves whale_txn_schema (
        "has_flag" ∷ "flag_cex_deposit" ∷ "flag_cex_withdrawal" ∷ "flag_cex_to_cex"
        ∷ "flag_high_freq_sender" ∷ "from_address" ∷ "value_eth" ∷ []))
      (and_then
        (resolves whale_txn_schema
          ("flag_cex_deposit" ∷ "to_label" ∷ "value_eth" ∷ "from_address" ∷ "from_label" ∷ []))
        (and_then (non_empty rows) passed)))

unfoldable pub error_of : Check → ℕ
error_of passed = 0
error_of raised = 1

-- `main` of the job: the three checks run whatever the others do, and any error fails the job.
unfoldable pub silver_quality_check_job : Check → Check → Check → Check
silver_quality_check_job txn token whale =
    if ltb 0 (error_of txn + error_of token + error_of whale) then raised else passed
