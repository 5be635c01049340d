-- ===== src/Tests/Layers.antt =====
-- The theorems about the silver and gold layers, at concrete inputs.
use mathlib.Core.List.{Permᴰ}
use mathlib.Core.List.Permᴰ
use native.Mathlib.Nat.{div-mul-le_self, lt-div-mul-add}
use eth_project.Prelude.{
  ℕ, ◌*◌, ◌/◌, ◌≤◌, ◌<◌, ◌≡◌, ◌↔◌, refl, true, false, Option, none, some, List, [], ◌∷◌, String,
  arith, map, select, any_of, ◌<ℤ◌,
}
use eth_project.Frame.{Address, IsReordering, sum_by, of_key}
use eth_project.Silver.Labels.{manual_labels, load_address_labels, labels-Unique}
use eth_project.Silver.Whales.{
  Txn, WhaleTxn, Engine, ether, private_move, cex_deposit, flow_type, is_private_transaction,
  whale_rows, build_whale_txns,
}
use eth_project.Silver.Whales.Flow.{flow_type-is_private_transaction, flow_type-reversed, reversed}
use eth_project.Silver.Whales.Joined.{whale_of, build_whale_txns-rows}
use eth_project.Silver.Checks.{
  passed, TxnTests, WhaleCheckRow, run_kpi_check, run_token_flow_kpi_check, run_whale_kpi_check,
  silver_quality_check_job,
}
use eth_project.Silver.Checks.Gate.{silver_quality_check_job_lem}
use eth_project.Silver.TokenFlow.{Transfer, TokenMeta, TokenFlow, build_token_flow}
use eth_project.Silver.TokenFlow.Kept.{is_listed, build_token_flow-rows}
use eth_project.Silver.Enriched.{
  BronzeTxn, Receipt, Enriched, build_txn_enriched, build_txn_enriched-rows,
}
use eth_project.Gold.Entities.{
  Entity, entity_of, entity_of-Known, known_choice, is_known, combined_entities,
}
use eth_project.Gold.TopWhales.{
  SentGroup, TopWhale, Joined, sent_group, build_top_whales_daily, rank_by, more_net, less_net,
  more_active, net_flow_eth, total_activity_eth,
}
use eth_project.Gold.TopWhales.Flags.{hf_sent_lem}
use eth_project.Gold.TopWhales.Totals.{totals_lem}
use eth_project.Gold.TopWhales.Ranks.{ranks_lem}
use eth_project.Gold.MarketFlow.{pressure_label, ratio_of}
use eth_project.Gold.MarketFlow.Labelled.{Says, IsAccurate, pressure_label_lem}

flow_type-is_private_transaction_example :
    (flow_type "Unknown" "Unknown" ≡ private_move)
    ↔ (is_private_transaction "Unknown" "Unknown" ≡ true)
flow_type-is_private_transaction_example = flow_type-is_private_transaction "Unknown" "Unknown"

flow_type-reversed_example : flow_type "CEX" "Unknown" ≡ reversed (flow_type "Unknown" "CEX")
flow_type-reversed_example = flow_type-reversed "Unknown" "CEX"

deposit_run : flow_type "Unknown" "CEX" ≡ cex_deposit
unfolding flow_type
deposit_run = refl

abbrev plain_engine : Engine
plain_engine = record {
  arrange_from = λ rows. rows;
  arrange_to = λ rows. rows;
  hour_of = λ t. t / 3600;
  entity_name_of = λ l. l;
}

abbrev payment : ℕ → Address → Txn
payment v to = record {
  hash = "0x1";
  block_timestamp = 7200;
  from_address = some "0xa";
  to_address = to;
  value_eth = some (v * ether);
  is_success = some true;
}

abbrev payments : List Txn
payments =
    payment 200 (some "0xb")
    ∷ payment 50 (some "0xb")
    ∷ payment 150 none
    ∷ payment 120 (some "0xa")
    ∷ []

unchanged : {A : Type 0} → IsReordering {A = A} (λ rows. rows)
unchanged rows = Permᴰ.refl rows

build_whale_txns-rows_example :
    Permᴰ
      (map whale_of (build_whale_txns plain_engine (100 * ether) manual_labels payments))
      (whale_rows (100 * ether) payments)
unfolding manual_labels load_address_labels
build_whale_txns-rows_example =
    build_whale_txns-rows plain_engine (100 * ether) manual_labels payments unchanged unchanged
      (labels-Unique (λ rows. []) (λ rows. tt) none)

abbrev whale_table : List WhaleTxn
whale_table = build_whale_txns plain_engine (100 * ether) manual_labels payments

hf_sent_lem_example : (1 ≤ SentGroup.hf_sent (sent_group whale_table (some "0xa"))) ↔ (
    (5 ≤ SentGroup.tx_count_as_sender (sent_group whale_table (some "0xa")))
    × (500 * ether ≤ SentGroup.total_sent_eth (sent_group whale_table (some "0xa"))))
hf_sent_lem_example =
    hf_sent_lem plain_engine (100 * ether) manual_labels payments unchanged (some "0xa")

totals_lem_example :
    (sum_by TopWhale.total_sent_eth (build_top_whales_daily (λ es. es) whale_table)
      ≡ sum_by WhaleTxn.value_eth whale_table)
    × (sum_by TopWhale.total_recv_eth (build_top_whales_daily (λ es. es) whale_table)
        ≡ sum_by WhaleTxn.value_eth whale_table)
totals_lem_example = totals_lem (λ es. es) whale_table

entity_of-Known_example :
    known_choice (entity_of (λ es. es) whale_table (some "0xa"))
    ≡ any_of is_known (of_key Entity.address (some "0xa") (combined_entities whale_table))
entity_of-Known_example = entity_of-Known (λ es. es) whale_table (some "0xa") unchanged

abbrev day_row : Address → ℕ → ℕ → Joined
day_row a sent_eth recv_eth = record {
  address = a;
  total_sent_eth = sent_eth * ether;
  tx_count_as_sender = 1;
  hf_sent = 0;
  total_recv_eth = recv_eth * ether;
  tx_count_as_receiver = 1;
}

abbrev first_row : Joined
first_row = day_row (some "0xa") 300 100

abbrev second_row : Joined
second_row = day_row (some "0xb") 0 200

ranks_lem_example :
    ((rank_by more_net (first_row ∷ second_row ∷ []) second_row
        < rank_by more_net (first_row ∷ second_row ∷ []) first_row)
      ↔ (net_flow_eth first_row <ℤ net_flow_eth second_row))
    × ((rank_by less_net (first_row ∷ second_row ∷ []) second_row
          < rank_by less_net (first_row ∷ second_row ∷ []) first_row)
        ↔ (net_flow_eth second_row <ℤ net_flow_eth first_row))
    × ((rank_by more_active (first_row ∷ second_row ∷ []) second_row
          < rank_by more_active (first_row ∷ second_row ∷ []) first_row)
        ↔ (total_activity_eth first_row < total_activity_eth second_row))
ranks_lem_example = ranks_lem (first_row ∷ []) [] second_row first_row

abbrev floor_ratio : ℕ → ℕ → ℕ
floor_ratio d w = d * 10000 / w

floor_ratio-IsAccurate : IsAccurate floor_ratio
floor_ratio-IsAccurate d w h = (omega (arith, div-mul-le_self (d * 10000) w, h), lt-div-mul-add h)

pressure_label_lem_example :
    Says floor_ratio 30 20 (pressure_label 30 20 (ratio_of floor_ratio 30 20))
pressure_label_lem_example = pressure_label_lem floor_ratio 30 20 floor_ratio-IsAccurate

abbrev read_counts : Option (ℕ × ℕ)
read_counts = some (1000, 1000)

abbrev no_counts : Option (ℕ × ℕ)
no_counts = none

abbrev no_rows : Option (Option (List WhaleCheckRow))
no_rows = none

abbrev fine_tests : TxnTests
fine_tests = record { low_success = false; high_fee = false }

silver_quality_check_job_lem_example :
    (silver_quality_check_job
        (run_kpi_check read_counts fine_tests)
        (run_token_flow_kpi_check no_counts 5)
        (run_whale_kpi_check no_rows)
      ≡ passed)
    ↔ ((read_counts ≡ none) × (no_counts ≡ none) × (no_rows ≡ none))
silver_quality_check_job_lem_example =
    silver_quality_check_job_lem read_counts no_counts fine_tests 5 no_rows

abbrev usdc : TokenMeta
usdc = record { token_address = "0xusdc"; symbol = "USDC"; token_name = "USD Coin"; decimals = 6 }

abbrev flow : String → String → Transfer
flow hash token = record {
  transaction_hash = hash;
  block_number = 7;
  token_address = token;
  from_address = some "0xa";
  to_address = some "0xb";
  value = "1000000";
}

abbrev flows : List Transfer
flows = flow "0x1" "0xusdc" ∷ flow "0x2" "0xother" ∷ []

build_token_flow-rows_example :
    map TokenFlow.transaction_hash
      (build_token_flow (λ v d. v) (λ t. t) (λ t. t) flows (usdc ∷ []) [] [])
    ≡ map Transfer.transaction_hash (select (is_listed (usdc ∷ [])) flows)
build_token_flow-rows_example =
    build_token_flow-rows (λ v d. v) (λ t. t) (λ t. t) flows (usdc ∷ []) [] [] (refl, tt)
      (λ n. omega arith) tt

token_flow_run : map Transfer.transaction_hash (select (is_listed (usdc ∷ [])) flows) ≡ "0x1" ∷ []
token_flow_run = refl

abbrev bronze_txn : BronzeTxn
bronze_txn = record {
  hash = "0x1";
  block_number = 7;
  block_timestamp = 7200;
  from_address = some "0xa";
  to_address = none;
  value = some 5;
  input = some "0x60";
}

abbrev receipt : Receipt
receipt = record {
  transaction_hash = "0x1";
  status = some 1;
  gas_used = some 21000;
  effective_gas_price = some 7;
}

build_txn_enriched-rows_example :
    map Enriched.hash
      (build_txn_enriched (λ w. some w) (λ t. t / 86400) (bronze_txn ∷ []) (receipt ∷ []))
    ≡ map BronzeTxn.hash (bronze_txn ∷ [])
build_txn_enriched-rows_example =
    build_txn_enriched-rows (λ w. some w) (λ t. t / 86400) (bronze_txn ∷ []) (receipt ∷ [])
      (refl, tt)
