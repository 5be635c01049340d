-- ===== src/Tests/Runs.antt =====
-- The theorems about the runs of the silver DAG on the cluster, at
-- concrete inputs.
use eth_project.Prelude.{
  ℕ, ◌*◌, ◌/◌, ◌^◌, ◌≡◌, refl, true, false, Option, none, some, List, [], ◌∷◌, non_empty, All,
}
use eth_project.Frame.{IsReordering, sum_by, joins, of_key, same_key}
use eth_project.Frame.Joins.{left_join}
use eth_project.Silver.Enriched.{
  build_txn_enriched, is_contract_call, is_contract_deploy, times, eth_of, is_one, receipt_field,
  enriched_row,
}
use eth_project.Silver.TokenFlow.{
  Transfer, TokenMeta, Block, TokenFlow, build_token_flow, inner_join, with_meta, time_of,
}
use eth_project.Frame
use eth_project.Silver.TokenFlow
use eth_project.Silver.Whales
use eth_project.Silver.Whales.{WhaleTxn, Engine, build_whale_txns, ether}
use eth_project.Pipeline.Tables.{stored, write_silver}
use eth_project.Pipeline.Silver.{
  Sources, SilverLake, JobEnv, enriched_rows, flow_rows, rows_of_whales, txn_of, txn_enriched_main,
  token_flow_main, whale_txns_main, store_enriched,
}
use eth_project.Pipeline.Cluster as Cluster
use eth_project.Pipeline.Cluster.Published.{
  enriched_folder, flow_folder, whales_folder, Stored, IsSmooth, run_attempts-Stored,
}

abbrev pub plain_engine : Engine
plain_engine = record {
  arrange_from = λ rows. rows;
  arrange_to = λ rows. rows;
  hour_of = λ t. t / 3600;
  entity_name_of = λ l. l;
}

abbrev seconds_of : Option ℕ → Option ℕ
seconds_of none = none
seconds_of (some t) = some (t / 86400)

abbrev pub src : Sources ℕ
src = record {
  transactions = λ d.
      record {
        hash = "0x1";
        block_number = 7;
        block_timestamp = d * 86400;
        from_address = some "0xa";
        to_address = some "0xb";
        value = some (200 * 10 ^ 18);
        input = some "0x";
      }
      ∷ [];
  receipts = λ d.
      record {
        transaction_hash = "0x1";
        status = some 1;
        gas_used = some 21000;
        effective_gas_price = some 1;
      }
      ∷ [];
  transfers = λ d.
      record {
        transaction_hash = "0x1";
        block_number = 7;
        token_address = "0xt";
        from_address = some "0xa";
        to_address = some "0xb";
        value = "5";
      }
      ∷ [];
  blocks = λ d. record { number = 7; timestamp = d * 86400 } ∷ [];
  tokens = record { token_address = "0xt"; symbol = "T"; token_name = "Token"; decimals = 6 } ∷ [];
  labels = [];
  to_eth = λ wei. some wei;
  date_of = λ t. t / 86400;
  amount_of = λ v decimals. 5;
  hour_of = seconds_of;
  flow_date_of = seconds_of;
  engine = plain_engine;
}

abbrev pub empty_lake : SilverLake ℕ
empty_lake = record { txn_enriched = λ d. none; token_flow = λ d. none; whale_txns = λ d. none }

abbrev pub works : {A : Type 0} → JobEnv A
works = record { session = true; ready = true; write = stored; unpersist = true; stop = true }

abbrev no_session : {A : Type 0} → JobEnv A
no_session = record { session = false; ready = true; write = stored; unpersist = true; stop = true }

-- One failed attempt, then each task once.
abbrev day : List (Cluster.Attempt ℕ)
day =
    Cluster.txn_enriched no_session
    ∷ Cluster.txn_enriched works
    ∷ Cluster.whale_txns works
    ∷ Cluster.token_flow works
    ∷ Cluster.publish true
    ∷ []

pub enriched_there : non_empty (enriched_folder src 1) ≡ true
unfolding enriched_rows build_txn_enriched left_join Frame.or_alone joins enriched_row
enriched_there = refl

flow_there : non_empty (flow_folder src 1) ≡ true
unfolding flow_rows build_token_flow left_join inner_join with_meta Frame.or_alone
    TokenFlow.flow_row time_of
flow_there = refl

whales_there : non_empty (whales_folder src 1) ≡ true
unfolding rows_of_whales build_whale_txns enriched_rows build_txn_enriched left_join Frame.or_alone
    joins enriched_row txn_of same_key Whales.over_to Whales.over_from Whales.label_whales
    Whales.whale_rows Whales.is_whale_txn Whales.at_least Whales.is_true receipt_field
    is_contract_call is_contract_deploy times eth_of is_one Whales.category_of Whales.final_row
    Whales.flag_high_freq Whales.flow_type Whales.is_private_transaction Whales.label_of
    Whales.labelled_row Whales.sent_row Whales.whale_row Whales.whale_tier
whales_there = refl

day-IsScheduled : Cluster.IsScheduled src 1 day (Cluster.start empty_lake)
unfolding Cluster.attempt Cluster.can_start txn_enriched_main token_flow_main whale_txns_main
    store_enriched write_silver
day-IsScheduled = (refl, (refl, (refl, (refl, (refl, tt)))))

day-IsSmooth : All (IsSmooth src 1) day
day-IsSmooth = (tt, (tt, ((refl, refl), ((refl, refl), (tt, tt)))))

day_asset : (Cluster.run_attempts src 1 day (Cluster.start empty_lake)).asset ≡ some 1
unfolding Cluster.run_attempts Cluster.attempt txn_enriched_main token_flow_main whale_txns_main
    store_enriched write_silver
day_asset = refl

run_attempts-Stored_example :
    Stored src 1 (Cluster.run_attempts src 1 day (Cluster.start empty_lake)).lake
run_attempts-Stored_example =
    run_attempts-Stored src 1 enriched_there flow_there whales_there day empty_lake day-IsSmooth
      day-IsScheduled day_asset

abbrev unreadable : JobEnv WhaleTxn
unreadable = record { session = true; ready = false; write = stored; unpersist = true; stop = true }
