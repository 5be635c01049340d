-- ===== src/Silver/Checks/Gate.antt =====
-- When the quality gate of the silver layer lets a day pass.
use eth_project.Prelude.{ℕ, ◌≡◌, refl, ◌↔◌, false, Option, none, some, List, [], ◌∷◌, arith}
use eth_project.Silver.Checks.{
  Check, passed, raised, TxnTests, WhaleCheckRow, and_then, is_retained, resolves, run_kpi_check,
  run_token_flow_kpi_check, run_whale_kpi_check, silver_quality_check_job, error_of,
  enriched_transaction_schema, token_flow_schema, whale_txn_schema,
}

not_resolved_txn :
    resolves enriched_transaction_schema
      ("is_success" ∷ "tx_fee_eth" ∷ "value_eth" ∷ "is_contract_call" ∷ "is_contract_deploy" ∷ [])
    ≡ false
unfolding resolves enriched_transaction_schema
not_resolved_txn = refl

not_resolved_token :
    resolves token_flow_schema ("token_address" ∷ "from_dex" ∷ "to_dex" ∷ "value_normalized" ∷ [])
    ≡ false
unfolding resolves token_flow_schema
not_resolved_token = refl

not_resolved_whale :
    resolves whale_txn_schema (
      "has_flag" ∷ "flag_cex_deposit" ∷ "flag_cex_withdrawal" ∷ "flag_cex_to_cex"
      ∷ "flag_high_freq_sender" ∷ "from_address" ∷ "value_eth" ∷ [])
    ≡ false
unfolding resolves whale_txn_schema
not_resolved_whale = refl

pub txn_raises : (counts : ℕ × ℕ) (tests : TxnTests) → run_kpi_check (some counts) tests ≡ raised
unfolding run_kpi_check and_then is_retained
txn_raises (silver, bronze) tests = rw not_resolved_txn (ground arith)

token_raises :
    (counts : ℕ × ℕ) (active : ℕ) → run_token_flow_kpi_check (some counts) active ≡ raised
unfolding run_token_flow_kpi_check and_then is_retained
token_raises (silver, bronze) active = rw not_resolved_token (ground arith)

whale_raises : (rows : Option (List WhaleCheckRow)) → run_whale_kpi_check (some rows) ≡ raised
unfolding run_whale_kpi_check and_then
whale_raises none = refl
whale_raises (some rows) = rw not_resolved_whale (ground arith)

txn_iff :
    (txn : Option (ℕ × ℕ)) (tests : TxnTests) → (run_kpi_check txn tests ≡ passed) ↔ (txn ≡ none)
unfolding run_kpi_check
txn_iff none tests = ground arith
txn_iff (some counts) tests = ground (arith, txn_raises counts tests)

token_iff :
    (token : Option (ℕ × ℕ)) (active : ℕ)
    → (run_token_flow_kpi_check token active ≡ passed) ↔ (token ≡ none)
unfolding run_token_flow_kpi_check
token_iff none active = ground arith
token_iff (some counts) active = ground (arith, token_raises counts active)

whale_iff :
    (whale : Option (Option (List WhaleCheckRow)))
    → (run_whale_kpi_check whale ≡ passed) ↔ (whale ≡ none)
unfolding run_whale_kpi_check
whale_iff none = ground arith
whale_iff (some rows) = ground (arith, whale_raises rows)

job_iff :
    (a b c : Check)
    → (silver_quality_check_job a b c ≡ passed) ↔ ((a ≡ passed) × (b ≡ passed) × (c ≡ passed))
unfolding silver_quality_check_job error_of
job_iff passed passed passed = ground arith
job_iff passed passed raised = ground arith
job_iff passed raised c = ground arith
job_iff raised b c = ground arith

-- The job passes just when none of the three checks could read its tables: a table that is read makes its check raise, whatever it holds.
pub silver_quality_check_job_lem :
    (txn token : Option (ℕ × ℕ)) (tests : TxnTests) (active : ℕ)
    (whale : Option (Option (List WhaleCheckRow)))
    → (silver_quality_check_job
          (run_kpi_check txn tests)
          (run_token_flow_kpi_check token active)
          (run_whale_kpi_check whale)
        ≡ passed)
      ↔ ((txn ≡ none) × (token ≡ none) × (whale ≡ none))
unfolding silver_quality_check_job error_of
silver_quality_check_job_lem txn token tests active whale = ground (
  arith,
  job_iff (run_kpi_check txn tests) (run_token_flow_kpi_check token active)
      (run_whale_kpi_check whale),
  txn_iff txn tests,
  token_iff token active,
  whale_iff whale,
)
