-- ===== src/Consumer/Main.antt =====
-- `main` of consumer/main.py: one iteration of its loop, the loop, and its `finally` block.
pub mod Ledger
pub mod Kind
pub mod Moves
pub mod Received
pub mod Durable
pub mod NoLoss
pub mod Shutdown
use eth_project.Prelude.{
  ℕ, suc, ◌+◌, String, Bool, true, false, ◌||◌, Option, none, some, List, [], ◌∷◌, ◌++◌, str_eq,
  length, non_empty, leb, if◌then◌else◌,
}
use eth_project.Json.{Json, obj, Fields}
use eth_project.Runtime.{Redis, Runtime, DateTime}
use eth_project.Action.{
  Action, Exception, Result, ok, raised, validation_error, type_error, redis_error, runtime_error,
  kafka_exception, database_error, pure, call, continue, ◌>>=◌, ◌>>◌, finally,
}
use eth_project.Consumer.Models.{
  BlockModel, TransactionModel, TokenTransferModel, block_model, transaction_model,
  token_transfer_model,
}
use eth_project.Consumer.Redis.{cache_block_timestamp, get_block_timestamp}
use eth_project.Consumer.Enrich.{Reads, enrich_token_timestamp}
use eth_project.Consumer.Producer.{Producer, FlushOutcome, close}
use eth_project.Consumer.Poll.{KafkaMessage, poll, is_record}
use eth_project.Consumer.State.{State}
use eth_project.Consumer.Flush.{FlushEnv, flush_batches}

abbrev pub batch_size : ℕ
batch_size = 100

-- What one turn of the loop meets: the polled message, the clock, Redis at each read (whether it
-- answers, the second, and what the other consumers of the group have written to it by then), a
-- flush, and whether a signal arrives.
pub record Iteration : Type 0 where
  pub message : Option KafkaMessage
  pub now : DateTime
  pub seconds : ℕ → ℕ
  pub redis_up : ℕ → Bool
  pub peers : ℕ → Redis → Redis
  pub flush : FlushEnv
  pub signal : Bool

-- What a message becomes.
pub data Intake : Type 0 where
  ignored : Intake
  block : BlockModel → Intake
  transaction : TransactionModel → Intake
  transfer : TokenTransferModel → Intake

-- `Model(**data)`: a `TypeError` where the data is no object.
build : {A : Type 0} → (Fields → Option A) → (A → Result Intake) → Json → Result Intake
build model use_it (obj d) = elim (model d) [ none ↦ raised validation_error | some a ↦ use_it a ]
build model use_it v = raised type_error

unfoldable pub redis_reads : Runtime → Iteration → Redis → TokenTransferModel → Reads
redis_reads rt it r token i =
    if it.redis_up i
    then ok (get_block_timestamp rt (it.seconds i) token.block_number (it.peers i r))
    else raised redis_error

enriched : Result (Bool × TokenTransferModel) → Result Intake
enriched (ok (true, token)) = ok (transfer token)
enriched (ok (false, token)) = ok ignored
enriched (raised e) = raised e

take_transfer : Runtime → Iteration → Redis → TokenTransferModel → Result Intake
unfolding enriched redis_reads
take_transfer rt it r token = enriched (enrich_token_timestamp rt (redis_reads rt it r token) token)

by_topic : Runtime → Iteration → Redis → String → Json → Result Intake
unfolding build take_transfer
by_topic rt it r topic v =
    if str_eq topic "blocks"
    then build (block_model rt) (λ b. ok (block b)) v
    else if str_eq topic "transactions"
    then build (transaction_model rt it.now) (λ tx. ok (transaction tx)) v
    else if str_eq topic "token_transfers"
    then build (token_transfer_model rt it.now) (take_transfer rt it r) v
    else ok ignored

-- The polled pair: `if data is not None`.
receive_data : Runtime → Iteration → Redis → Option String × Option Json → Result Intake
unfolding by_topic
receive_data rt it r (some topic, some v) = by_topic rt it r topic v
receive_data rt it r (topic, data_) = ok ignored

-- What the polled message becomes, or the exception that it raises inside the inner `try`.
unfoldable pub receive : Runtime → Iteration → Redis → Option String × Option Json → Result Intake
unfolding receive_data
receive rt it r polled = receive_data rt it r polled

-- The effect of a received message.
unfoldable pub keep : Runtime → Iteration → Intake → Action State (Unit {0})
keep rt it ignored s = (ok tt, s)
keep rt it (block b) s =
    call (it.redis_up 0) redis_error
      (λ t. record t {
        redis = cache_block_timestamp rt (it.seconds 0) b.number (rt.isoformat b.timestamp) t.redis;
      })
      s
keep rt it (transaction tx) s = (ok tt, record s { tx_batch = s.tx_batch ++ (tx ∷ []) })
keep rt it (transfer token) s = (ok tt, record s { token_batch = s.token_batch ++ (token ∷ []) })

-- `except Exception: logger.error(…)`.
pub ignore_exception : Action State (Unit {0}) → Action State (Unit {0})
ignore_exception m s = (ok tt, (m s).1)

unfoldable pub flush_when_full : Runtime → FlushEnv → Action State (Unit {0})
unfolding ignore_exception
flush_when_full rt env s =
    if leb batch_size (length s.tx_batch + length s.token_batch)
    then ignore_exception (flush_batches rt env) s
    else (ok tt, s)

-- After the inner `try`: a validation error goes on with the next turn, another exception leaves the loop.
pub taken : Runtime → Iteration → Result Intake → Action State (Unit {0})
taken rt it (ok intake) s = ◌>>=◌ (keep rt it intake) (λ _. flush_when_full rt it.flush) s
taken rt it (raised validation_error) s = (ok tt, s)
taken rt it (raised e) s = (raised e, s)

pub after_poll :
    Runtime → Iteration → Result (Option String × Option Json) → Action State (Unit {0})
unfolding taken
after_poll rt it (ok polled) s = taken rt it (receive rt it s.redis polled) s
after_poll rt it (raised e) s = (raised e, s)

pub polled_state : Iteration → State → State
polled_state it s = record s {
  position = if is_record it.message then suc s.position else s.position;
}

-- The handler of SIGINT and SIGTERM.
unfoldable pub signal_handler : State → State
signal_handler s = record s { running = false }

pub signalled : Iteration → State → State
unfolding signal_handler
signalled it s = if it.signal then signal_handler s else s

unfoldable pub iterate : Runtime → Iteration → Action State (Unit {0})
unfolding after_poll polled_state signalled
iterate rt it s = after_poll rt it (poll rt it.message) (polled_state it (signalled it s))

abbrev pub while : Bool → Action State (Unit {0}) → Action State (Unit {0})
while true turn s = turn s
while false turn s = (ok tt, s)

-- `while running`, over the turns that are observed.
unfoldable pub main_loop : Runtime → List Iteration → Action State (Unit {0})
main_loop rt [] s = (ok tt, s)
main_loop rt (it ∷ its) s = while s.running (◌>>=◌ (iterate rt it) (λ _. main_loop rt its)) s

pub record ShutdownEnv : Type 0 where
  pub flush : FlushEnv
  pub producer_flush : FlushOutcome
  pub kafka_close : Bool
  pub pool_close : Bool

unfoldable pub close_producer : FlushOutcome → State → State
close_producer out s = record s { producer = (close out s.producer).1 }

unfoldable pub flush_rest : Runtime → FlushEnv → State → State
flush_rest rt env s =
    if non_empty s.tx_batch || non_empty s.token_batch then (flush_batches rt env s).1 else s

abbrev pub close_clients : Bool → Bool → Action State (Unit {0})
close_clients kafka pool =
    ◌>>=◌ (call kafka kafka_exception (λ t. record t { kafka_open = false }))
      (λ _. call pool database_error (λ t. record t { pool_open = false }))

-- The `finally` block of `main`.
unfoldable pub shutdown : Runtime → ShutdownEnv → Action State (Unit {0})
unfolding close_producer flush_rest
shutdown rt env s =
    close_clients env.kafka_close env.pool_close
      (close_producer env.producer_flush (flush_rest rt env.flush s))

-- `main` from its loop on, with the clients set up.
unfoldable pub main : Runtime → List Iteration → ShutdownEnv → Action State (Unit {0})
main rt its env = finally (main_loop rt its) (shutdown rt env)
