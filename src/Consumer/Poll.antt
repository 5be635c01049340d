-- ===== src/Consumer/Poll.antt =====
-- `KafkaConsumerClient.poll` of consumer/kafka_client.py.
use eth_project.Prelude.{
  String, ◌≡◌, ◌⊎◌, inl, inr, refl, Bool, true, false, Option, none, some, arith,
}
use eth_project.Json.{Json, null}
use eth_project.Runtime.{Runtime}
use eth_project.Action.{Exception, Result, ok, raised, kafka_exception}

pub data KafkaError : Type 0 where
  partition_eof other : KafkaError

-- A message of librdkafka: an event about the partition, or a record of a topic. `value` is the raw
-- text of the record, `none` for a tombstone.
pub record KafkaMessage : Type 0 where
  pub error : Option KafkaError
  pub topic : String
  pub value : Option String

-- `None` is the value of the JSON text `null`.
present : Json → Option Json
present null = none
present v = some v

decoded : String → Option Json → Result (Option String × Option Json)
unfolding present
decoded topic none = ok (none, none)
decoded topic (some v) = ok (some topic, present v)

record_value : Runtime → String → Option String → Result (Option String × Option Json)
unfolding decoded
record_value rt topic none = ok (some topic, none)
record_value rt topic (some raw) = decoded topic (rt.loads raw)

of_error : Runtime → KafkaMessage → Option KafkaError → Result (Option String × Option Json)
unfolding record_value
of_error rt m (some partition_eof) = ok (none, none)
of_error rt m (some other) = raised kafka_exception
of_error rt m none = record_value rt m.topic m.value

unfoldable pub poll : Runtime → Option KafkaMessage → Result (Option String × Option Json)
unfolding of_error
poll rt none = ok (none, none)
poll rt (some m) = of_error rt m m.error

of_record : Option KafkaError → Bool
of_record none = true
of_record (some e) = false

-- Whether the consumer's position moves: librdkafka returned a record, not an event or nothing.
unfoldable pub is_record : Option KafkaMessage → Bool
unfolding of_record
is_record none = false
is_record (some m) = of_record m.error

of_error-event :
    (rt : Runtime) (m : KafkaMessage) (e : Option KafkaError)
    → of_record e ≡ false
    → (of_error rt m e ≡ ok (none, none)) ⊎ (of_error rt m e ≡ raised kafka_exception)
unfolding of_error of_record
of_error-event rt m (some partition_eof) h = inl refl
of_error-event rt m (some other) h = inr refl
of_error-event rt m none h = cc

-- What is no record of a topic gives no data: it is skipped, or it is an error of the broker.
pub poll-event :
    (rt : Runtime) (m : Option KafkaMessage)
    → is_record m ≡ false
    → (poll rt m ≡ ok (none, none)) ⊎ (poll rt m ≡ raised kafka_exception)
unfolding poll is_record
poll-event rt none h = inl refl
poll-event rt (some m) h = of_error-event rt m m.error h

of_error_raises :
    (rt : Runtime) (m : KafkaMessage) (k : Option KafkaError) (e : Exception)
    → of_error rt m k ≡ raised e
    → (k ≡ some other) × (e ≡ kafka_exception)
unfolding of_error
of_error_raises rt m (some partition_eof) e h = cc
of_error_raises rt m (some other) e h = (refl, ground arith)
of_error_raises rt m none e h = ground arith

-- Only an error of the broker other than the end of a partition raises: no record does, whatever its
-- text, and a text that is not JSON is skipped.
pub poll_raises :
    (rt : Runtime) (m : Option KafkaMessage) (e : Exception)
    → poll rt m ≡ raised e
    → (x : KafkaMessage) × (m ≡ some x) × (x.error ≡ some other) × (e ≡ kafka_exception)
unfolding poll
poll_raises rt none e h = cc
poll_raises rt (some m) e h = let (p, q) = of_error_raises rt m m.error e h in (m, refl, p, q)
