-- ===== src/Consumer/Producer.antt =====
-- `KafkaProducerClient` of consumer/kafka_client.py, and the alerts that consumer/main.py sends by it.
pub mod Laws
use eth_project.Prelude.{
  ℕ, zero, suc, ◌+◌, ◌*◌, ◌^◌, String, Bool, true, false, Option, none, some, List, [], ◌∷◌, ◌++◌,
  ℤ, pos, leb_ℤ, select, length, non_empty, ltb, if◌then◌else◌,
}
use eth_project.Runtime.{Runtime, DateTime}
use eth_project.Consumer.Models.{TransactionModel}
use eth_project.Action.{
  Action, Exception, ok, raised, runtime_error, buffer_error, pure, ◌>>=◌, ◌>>◌,
}

-- The dictionary of `build_whale_alert_payload`. `value_eth` is the float of value / 10 ** 18, and
-- is kept as the exact quotient's two parts.
pub record Payload : Type 0 where
  pub hash : String
  pub timestamp : String
  pub from_address : String
  pub to_address : Option String
  pub value : ℤ
  pub value_eth : ℤ × ℕ

pub record Message : Type 0 where
  pub topic : String
  pub key : String
  pub value : Payload

-- `produced` are the messages that librdkafka took, in order; `error` is `_error`.
pub record Producer : Type 0 where
  pub error : Option String
  pub produced : List Message

abbrev pub whale_alerts_topic : String
whale_alerts_topic = "whale-alerts"

abbrev pub wei_per_eth : ℕ
wei_per_eth = 10 ^ 18

abbrev pub whale_threshold_wei : ℤ
whale_threshold_wei = pos (100 * wei_per_eth)

unfoldable pub build_whale_alert_payload : Runtime → TransactionModel → Payload
build_whale_alert_payload rt tx = record {
  hash = tx.hash;
  timestamp = rt.isoformat tx.timestamp;
  from_address = tx.from_address;
  to_address = tx.to_address;
  value = tx.value;
  value_eth = (tx.value, wei_per_eth);
}

-- The delivery callback, for each report that a poll or a flush of librdkafka serves.
unfoldable pub on_delivery : Option String → Producer → Producer
on_delivery none p = p
on_delivery (some err) p = record p { error = some err }

unfoldable pub on_deliveries : List (Option String) → Producer → Producer
unfolding on_delivery
on_deliveries [] p = p
on_deliveries (r ∷ rs) p = on_deliveries rs (on_delivery r p)

-- What librdkafka does at one `produce` and the `poll(0)` after it: whether the queue takes the
-- message, and the delivery reports that are served.
pub record SendOutcome : Type 0 where
  pub accepted : Bool
  pub reports : List (Option String)

-- What it does at `flush`: how many messages stay queued, and the reports that are served.
pub record FlushOutcome : Type 0 where
  pub remaining : ℕ
  pub reports : List (Option String)

unfoldable pub send_message : SendOutcome → Message → Action Producer (Unit {0})
unfolding on_deliveries
send_message out m p =
    if out.accepted
    then (ok tt, on_deliveries out.reports (record p { produced = p.produced ++ (m ∷ []) }))
    else (raised buffer_error, p)

-- The two tests of `flush` after the call of librdkafka.
flushed : ℕ → Option String → Action Producer (Unit {0})
flushed (suc n) e p = (raised runtime_error, p)
flushed zero (some err) p = (raised runtime_error, record p { error = none })
flushed zero none p = (ok tt, p)

unfoldable pub flush : FlushOutcome → Action Producer (Unit {0})
unfolding flushed on_deliveries
flush out p = let q = on_deliveries out.reports p in flushed out.remaining q.error q

unfoldable pub is_whale : TransactionModel → Bool
is_whale tx = leb_ℤ whale_threshold_wei tx.value

unfoldable pub whale_message : Runtime → TransactionModel → Message
unfolding build_whale_alert_payload
whale_message rt tx = record {
  topic = whale_alerts_topic;
  key = tx.hash;
  value = build_whale_alert_payload rt tx;
}

-- The loop over the whale transactions; `outs n` is the outcome of the n-th send.
unfoldable pub send_all :
    Runtime → (ℕ → SendOutcome) → List TransactionModel → Action Producer (Unit {0})
unfolding send_message whale_message
send_all rt outs [] = pure tt
send_all rt outs (tx ∷ txs) = do
  send_message (outs 0) (whale_message rt tx)
  send_all rt (λ n. outs (suc n)) txs

unfoldable pub publish_whale_alerts :
    Runtime → (ℕ → SendOutcome) → FlushOutcome → List TransactionModel → Action Producer ℕ
unfolding is_whale send_all flush
publish_whale_alerts rt outs last transactions =
    let whales = select is_whale transactions in
    do
      send_all rt outs whales
      if non_empty whales then flush last else pure tt
      pure (length whales)

-- `close` flushes, and logs.
unfoldable pub close : FlushOutcome → Action Producer (Unit {0})
unfolding flush
close out = flush out
