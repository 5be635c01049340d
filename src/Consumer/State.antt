-- ===== src/Consumer/State.antt =====
-- The state of the consumer process and of what it writes to: the committed tables, the view of the
-- connection that is out, the Kafka producer, the offsets of the Kafka consumer, the cached block
-- times, the flag that the signal handler clears, and whether the clients are open.
use eth_project.Prelude.{ℕ, Bool, true, List, [], none}
use eth_project.Consumer.Models.{TransactionModel, TokenTransferModel}
use eth_project.Consumer.Database.{Database}
use eth_project.Runtime.{Redis}
use eth_project.Consumer.Producer.{Producer}

pub record State : Type 0 where
  pub database : Database
  pub session : Database
  pub leased : ℕ  -- connections taken from the pool and not given back
  pub producer : Producer
  pub position : ℕ  -- the offset after the last message that `poll` returned
  pub committed : ℕ  -- the offset that the consumer last asked Kafka to commit
  pub tx_batch : List TransactionModel
  pub token_batch : List TokenTransferModel
  pub redis : Redis
  pub running : Bool
  pub kafka_open : Bool
  pub pool_open : Bool

-- The state at the start of `main`, over tables that may hold rows.
abbrev pub initial : Database → Redis → ℕ → State
initial db redis offset = record {
  database = db;
  session = db;
  leased = 0;
  producer = record { error = none; produced = [] };
  position = offset;
  committed = offset;
  tx_batch = [];
  token_batch = [];
  redis = redis;
  running = true;
  kafka_open = true;
  pool_open = true;
}
