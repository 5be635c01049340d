-- ===== src/Tests/Streaming.antt =====
-- The theorems about the streaming consumer, at concrete inputs.
use eth_project.Prelude.{
  ℕ, zero, suc, ◌<◌, ◌≡◌, ◌+◌, refl, String, true, false, Option, none, some, [], ◌∷◌, pos, arith,
  ltb, eqb_ℤ, if◌then◌else◌,
}
use eth_project.Action.{ok, raised, kafka_exception}
use eth_project.Runtime.{RedisLaws}
use eth_project.Consumer.Redis.{
  get_block_timestamp, cache_block_timestamp, get-cache_block_timestamp,
}
use eth_project.Consumer.Enrich.{Reads, has_text, enrich_token_timestamp}
use eth_project.Consumer.Enrich.Laws.{FirstText, enrich_found, enrich_dropped}
use eth_project.Consumer.Models.{transaction_model, token_transfer_model}
use eth_project.Consumer.Flush.{flush_batches}
use eth_project.Consumer.Flush.States.{Flushed, written}
use eth_project.Consumer.Flush.Outcome.{Failed, flush_returns, flush_raises}
use eth_project.Consumer.Flush.Rows.{or_else, transaction_at, transfer_at, flush_rows}
use eth_project.Consumer.Flush.Retry.{Failing, stop, attempt, flush_retried}
use eth_project.Consumer.Producer.{publish_whale_alerts}
use eth_project.Consumer.State.{State}
use eth_project.Consumer.Poll.{poll}
use eth_project.Consumer.Main.{main, main_loop, receive, iterate, keep, flush_when_full}
use eth_project.Consumer.Main.Received.{received}
use eth_project.Consumer.Main.Kind.{transactions}
use eth_project.Consumer.Main.Durable.{journal}
use eth_project.Consumer.Main.NoLoss.{AllKept}
use eth_project.Consumer.Main.Shutdown.{main_no_loss, main_closes}
use eth_project.Tests.Samples.{
  sample_runtime, sends_well, kafka_down, four_turns, shutdown_env, start, one_whale, whale_row,
  waiting_transfer,
}

main_no_loss_example :
    AllKept transactions
      (main sample_runtime four_turns shutdown_env start).1
      (journal transactions sample_runtime four_turns start)
main_no_loss_example =
    main_no_loss transactions sample_runtime four_turns shutdown_env start (omega arith)

-- The run above accepts one transaction, at offset 40.
journal_run : journal transactions sample_runtime four_turns start ≡ (40, whale_row) ∷ []
unfolding journal received poll receive transaction_model iterate keep flush_when_full
    token_transfer_model enrich_token_timestamp
journal_run = refl

flush_ok : (flush_batches sample_runtime sends_well one_whale).0 ≡ ok tt
unfolding flush_batches publish_whale_alerts
flush_ok = refl

flush_down : (flush_batches sample_runtime kafka_down one_whale).0 ≡ raised kafka_exception
unfolding flush_batches publish_whale_alerts
flush_down = refl

flush_returns_example :
    Flushed sample_runtime 0 one_whale (flush_batches sample_runtime sends_well one_whale).1
flush_returns_example = flush_returns sample_runtime sends_well one_whale flush_ok

flush_raises_example :
    Failed sample_runtime kafka_down one_whale (flush_batches sample_runtime kafka_down one_whale).1
flush_raises_example = flush_raises sample_runtime kafka_down one_whale kafka_exception flush_down

flush_rows_example :
    (transaction_at "0xa"
        (pos 7000000)
        (flush_batches sample_runtime sends_well one_whale).1.database.transactions
      ≡ or_else
          (transaction_at "0xa" (pos 7000000) one_whale.database.transactions)
          (transaction_at "0xa" (pos 7000000) one_whale.tx_batch))
    × (transfer_at "0xb"
          (pos 3)
          (pos 5)
          (flush_batches sample_runtime sends_well one_whale).1.database.token_transfers
        ≡ or_else
            (transfer_at "0xb" (pos 3) (pos 5) one_whale.database.token_transfers)
            (transfer_at "0xb" (pos 3) (pos 5) one_whale.token_batch))
flush_rows_example =
    flush_rows sample_runtime sends_well one_whale "0xa" (pos 7000000) "0xb" (pos 3) (pos 5)
      flush_ok

-- The state that the failed flush leaves.
abbrev stuck : State
stuck = (flush_batches sample_runtime kafka_down one_whale).1

retry_ok : (flush_batches sample_runtime sends_well stuck).0 ≡ ok tt
unfolding flush_batches publish_whale_alerts
retry_ok = refl

one_failure : Failing sample_runtime one_whale stuck
one_failure = attempt kafka_down kafka_exception one_whale stuck refl flush_down (stop stuck)

flush_retried_example :
    ((flush_batches sample_runtime sends_well stuck).1.database ≡ written one_whale)
    × ((flush_batches sample_runtime sends_well stuck).1.tx_batch ≡ [])
    × ((flush_batches sample_runtime sends_well stuck).1.token_batch ≡ [])
    × ((flush_batches sample_runtime sends_well stuck).1.committed ≡ 41)
    × ((flush_batches sample_runtime sends_well stuck).1.leased ≡ 0)
flush_retried_example = flush_retried sample_runtime sends_well one_whale stuck one_failure retry_ok

main_closes_example :
    ((main sample_runtime four_turns shutdown_env start).1.kafka_open ≡ false)
    × ((main sample_runtime four_turns shutdown_env start).1.pool_open ≡ false)
    × ((main sample_runtime four_turns shutdown_env start).0
        ≡ (main_loop sample_runtime four_turns start).0)
main_closes_example = main_closes sample_runtime four_turns shutdown_env start refl refl

-- Redis has the time of the block from the third read on.
abbrev third_read : Reads
third_read zero = ok none
third_read (suc zero) = ok none
third_read (suc (suc n)) = ok (some "1970-01-01T00:00:05+00:00")

third_read_found : FirstText third_read 11 2 "1970-01-01T00:00:05+00:00"
third_read_found = record {
  within = omega arith;
  found = refl;
  proper = refl;
  before = nothing_before;
}
  where
    nothing_before :
        (j : ℕ) → j < 2 → (c : Option String) × (third_read j ≡ ok c) × (has_text c ≡ false)
    nothing_before zero lt = (none, refl, refl)
    nothing_before (suc zero) lt = (none, refl, refl)
    nothing_before (suc (suc n)) lt = absurd (omega (arith, lt))

enrich_found_example :
    enrich_token_timestamp sample_runtime third_read waiting_transfer
    ≡ ok (true, record waiting_transfer { timestamp = some (pos 5000000) })
enrich_found_example =
    enrich_found sample_runtime third_read waiting_transfer 2 "1970-01-01T00:00:05+00:00"
      (pos 5000000) refl third_read_found refl

abbrev no_read : Reads
no_read n = ok none

enrich_dropped_example :
    enrich_token_timestamp sample_runtime no_read waiting_transfer ≡ ok (false, waiting_transfer)
enrich_dropped_example =
    enrich_dropped sample_runtime no_read waiting_transfer refl (λ j lt. (none, refl, refl))

sample_redis : RedisLaws sample_runtime
sample_redis = record { setex_get = λ t now time key other value r. refl }

get-cache_block_timestamp_example :
    get_block_timestamp sample_runtime 650
      (pos 11)
      (cache_block_timestamp sample_runtime 100 (pos 10) "t" (λ key now. some "u"))
    ≡ (if eqb_ℤ (pos 10) (pos 11)
        then (if ltb 650 (100 + 600) then some "t" else none)
        else get_block_timestamp sample_runtime 650 (pos 11) (λ key now. some "u"))
get-cache_block_timestamp_example =
    get-cache_block_timestamp sample_runtime 100 650 (pos 10) (pos 11) "t" (λ key now. some "u")
      sample_redis refl
