-- ===== src/Tests/Tables.antt =====
-- The theorems about the local DAGs and the popularity of tokens, at concrete inputs.
use eth_project.Prelude.{
  if◌then◌else◌, ◌==◌, ℕ, ◌*◌, ◌^◌, ◌≤◌, ◌≡◌, refl, Bool, true, false, none, some, List, [], ◌∷◌,
  ◌++◌, String, arith, map, length, non_empty, All,
}
use eth_project.Frame.{sum_by, or_alone, joins, joins_key, distinct_keys}
use eth_project.Frame.Joins.{left_join, outer_join}
use eth_project.Silver.Enriched.{build_txn_enriched, enriched_row}
use eth_project.Silver.TokenFlow.{TokenFlow}
use eth_project.Silver.Whales.{WhaleTxn, shark, private_move}
use eth_project.Gold.TopWhales.{
  TopWhale, build_top_whales_daily, joined, sent_groups, recv_groups, recv_group, sent_group,
}
use eth_project.Gold.Popularity.{
  Floats, Base, TokenPopularity, build_token_popularity_daily, popularity_score, rank_popularity,
  popularity_tier,
}
use eth_project.Gold.Popularity.Parts.{tx_counts_lem}
use eth_project.Gold.Popularity.Score.{IsAtMost, popularity_lem, tier_place}
use eth_project.Pipeline.Tables.{Table, stored, write_silver, read_silver, write_partitions}
use eth_project.Pipeline.Silver.{
  build_txn_enriched_task, store_enriched, build_token_flow_task, store_flow, build_whale_txns_task,
  store_whales, enriched_rows,
}
use eth_project.Pipeline.Worker as Worker
use eth_project.Pipeline.Worker.Gated.{run_attempts_gated, IsReadable}
use eth_project.Pipeline.Gold.{GoldTable, GoldEnv, gold_attempts, top_whales_daily_task}
use eth_project.Pipeline.Gold.Reruns.{whale_reruns, copies}
use eth_project.Tests.Runs.{src, empty_lake, works, enriched_there}

abbrev quality : Worker.QualityEnv
quality = record {
  session = true;
  txn_readable = true;
  flow_readable = true;
  whales_readable = true;
  whales_counted = true;
  tests = record { low_success = false; high_fee = false };
  active_tokens = 1;
  stop = true;
}

-- The tables are built, and checked.
abbrev local_day : List (Worker.Attempt ℕ)
local_day =
    Worker.txn_enriched works
    ∷ Worker.token_flow works
    ∷ Worker.whale_txns works
    ∷ Worker.check quality
    ∷ []

local-IsReadable : All (IsReadable src 1) local_day
local-IsReadable = (tt, (tt, (tt, (refl, tt))))

local-IsScheduled : Worker.IsScheduled src 1 local_day (Worker.start empty_lake)
unfolding Worker.attempt Worker.can_start build_txn_enriched_task store_enriched write_silver
    build_token_flow_task store_flow build_whale_txns_task store_whales read_silver write_partitions
    enriched_rows build_txn_enriched left_join or_alone joins enriched_row
local-IsScheduled = (refl, (refl, (refl, (refl, tt))))

run_attempts_gated_example :
    (Worker.run_attempts src 1 local_day (Worker.start empty_lake)).asset ≡ none
run_attempts_gated_example =
    run_attempts_gated src 1 enriched_there local_day empty_lake local-IsReadable local-IsScheduled

abbrev whale_row : WhaleTxn
whale_row = record {
  hash = "0x1";
  block_timestamp = 86400;
  hour = 0;
  from_address = some "0xa";
  from_label = "Unknown";
  from_entity = "Unknown";
  from_category = "Unknown";
  to_address = some "0xb";
  to_label = "Unknown";
  to_entity = "Unknown";
  to_category = "Unknown";
  value_eth = 200 * 10 ^ 18;
  cumul_sent_eth = 200 * 10 ^ 18;
  cumul_tx_count = 1;
  cumul_recv_eth = 200 * 10 ^ 18;
  whale_tier = shark;
  flow_type = private_move;
  is_private_transaction = true;
  flag_high_freq = false;
}

abbrev whale_table : Table WhaleTxn
whale_table d = some (whale_row ∷ [])

abbrev empty_gold : GoldTable TopWhale
empty_gold = record { folders = λ d. none; bigquery = [] }

abbrev gold_env : Bool → GoldEnv TopWhale
gold_env stop = record { session = true; readable = true; write = stored; load = true; stop = stop }

top_whales_there : non_empty (build_top_whales_daily (λ rows. rows) (whale_row ∷ [])) ≡ true
unfolding build_top_whales_daily joined outer_join left_join sent_groups distinct_keys or_alone
    recv_groups joins_key recv_group joins sent_group
top_whales_there = refl

-- The session could not be closed the first time, so the task was tried again.
whale_reruns_example :
    ((gold_attempts
          (top_whales_daily_task (λ rows. rows) whale_table 1)
          (gold_env false ∷ gold_env true ∷ [])
          empty_gold).folders
        1
      ≡ some (build_top_whales_daily (λ rows. rows) (whale_row ∷ [])))
    × ((gold_attempts
          (top_whales_daily_task (λ rows. rows) whale_table 1)
          (gold_env false ∷ gold_env true ∷ [])
          empty_gold).bigquery
        ≡ []
          ++ copies 2 (map (λ r. (1, r)) (build_top_whales_daily (λ rows. rows) (whale_row ∷ []))))
whale_reruns_example =
    whale_reruns (λ rows. rows) whale_table 1 (whale_row ∷ []) (gold_env false ∷ gold_env true ∷ [])
      empty_gold refl top_whales_there (refl, (refl, tt)) (omega arith)

abbrev floats : Floats ℕ
floats = record {
  zero = 0;
  negate = λ a. 0;
  rounded_sum = λ l. length l;
  above_threshold = λ a. true;
  below_threshold = λ a. false;
  volume_above_min = λ volumes v. if v == 7 then none else some v;
  volume_denom = λ volumes. 1;
  approx_count_distinct = λ l. length l;
}

abbrev flow : String → TokenFlow ℕ
flow token = record {
  transaction_hash = "0x1";
  block_timestamp = some 86400;
  hour = some 0;
  dt = some 1;
  token_address = token;
  symbol = "T";
  token_name = "Token";
  from_address = some "0xa";
  from_label = "Unknown";
  from_category = "Unknown";
  to_address = some "0xb";
  to_label = "Unknown";
  to_category = "CEX";
  amount = 5;
}

tx_counts_lem_example :
    sum_by TokenPopularity.tx_count
      (build_token_popularity_daily floats (flow "0xt" ∷ flow "0xu" ∷ flow "0xt" ∷ []))
    ≡ 3
tx_counts_lem_example = tx_counts_lem floats (flow "0xt" ∷ flow "0xu" ∷ flow "0xt" ∷ [])

abbrev token : ℕ → ℕ → Base ℕ
token txs addresses = record {
  token_address = "0xt";
  symbol = "T";
  token_name = "Token";
  tx_count = txs;
  total_volume = 0;
  unique_addresses = addresses;
  cex_net_flow = 0;
}

-- The other token has a volume that is null.
abbrev null_volume : Base ℕ
null_volume = record (token 2 2) { total_volume = 7 }

popularity_lem_example :
    (n : ℕ) × (popularity_score floats (null_volume ∷ token 9 4 ∷ []) (token 9 4) ≡ some n)
    × (n ≤ 10000)
    × IsAtMost (popularity_score floats (null_volume ∷ token 9 4 ∷ []) null_volume) n
    × (rank_popularity floats (null_volume ∷ token 9 4 ∷ []) (token 9 4)
        ≤ rank_popularity floats (null_volume ∷ token 9 4 ∷ []) null_volume)
    × (tier_place
          (popularity_tier (rank_popularity floats (null_volume ∷ token 9 4 ∷ []) (token 9 4)))
        ≤ tier_place
            (popularity_tier (rank_popularity floats (null_volume ∷ token 9 4 ∷ []) null_volume)))
popularity_lem_example =
    popularity_lem floats (null_volume ∷ []) [] null_volume (token 9 4) 0 refl (omega arith)
      (omega arith) (omega arith)
