-- ===== src/Tests/Samples.antt =====
-- Concrete inputs of the consumer: a runtime that decodes three texts, messages, turns of the loop.
use eth_project.Prelude.{
  ◌*◌, String, true, false, Option, none, some, List, [], ◌∷◌, ℤ, pos, str_eq, if◌then◌else◌,
  pos_part, eqb_ℤ, ltb, ◌+◌,
}
use eth_project.Json.{Json, int, str, obj, Fields, end, field}
use eth_project.Runtime.{Runtime, DateTime}
use eth_project.Consumer.Models.{TransactionModel, TokenTransferModel}
use eth_project.Consumer.Poll.{other}
use eth_project.Consumer.Flush.{FlushEnv}
use eth_project.Consumer.State.{State, initial}
use eth_project.Consumer.Main.{Iteration, ShutdownEnv}

abbrev pub text_of : Json → Option String
text_of (str s) = some s
text_of v = none

abbrev pub number_of : Json → Option ℤ
number_of (int n) = some n
number_of v = none

abbrev pub seconds_of : Json → Option DateTime
seconds_of (int n) = some (pos (pos_part n * 1000000))
seconds_of v = none

abbrev pub whale_fields : Fields
whale_fields = field "hash" (str "0xa") (
    field "timestamp" (int (pos 7))
      (field "from_address" (str "0x1") (field "value" (int (pos 200000000000000000000)) end)))

abbrev pub transfer_fields : Fields
transfer_fields = field "transaction_hash" (str "0xb") (
    field "log_index" (int (pos 3)) (
      field "block_number" (int (pos 10)) (
        field "token_address" (str "0xt") (
          field "from_address" (str "0x1")
            (field "to_address" (str "0x2") (field "timestamp" (int (pos 9)) end))))))

abbrev pub decode : String → Option Json
decode raw =
    if str_eq raw "whale"
    then some (obj whale_fields)
    else if str_eq raw "transfer"
    then some (obj transfer_fields)
    else none

abbrev pub sample_runtime : Runtime
sample_runtime = record {
  loads = decode;
  dumps = λ v. "";
  as_str = text_of;
  as_int = number_of;
  as_datetime = seconds_of;
  fromtimestamp = seconds_of;
  isoformat = λ t. "1970-01-01T00:00:05+00:00";
  fromisoformat = λ text. some (pos 5000000);
  str_int = λ n. if eqb_ℤ n (pos 10) then "10" else "11";
  setex = λ t key time value r other now.
      if str_eq key other then (if ltb now (t + time) then some value else none) else r other now;
}

abbrev pub sends_well : FlushEnv
sends_well = record {
  get_connection = true;
  insert_transactions = true;
  insert_token_transfers = true;
  commit = true;
  rollback = true;
  release = true;
  kafka_commit = true;
  sends = λ n. record { accepted = true; reports = none ∷ [] };
  flush = record { remaining = 0; reports = [] };
}

-- The broker takes no commit of the offset.
abbrev pub kafka_down : FlushEnv
kafka_down = record sends_well { kafka_commit = false }

abbrev pub turn_of : String → String → FlushEnv → Iteration
turn_of topic raw env = record {
  message = some (record { error = none; topic = topic; value = some raw });
  now = pos 0;
  seconds = λ n. n;
  redis_up = λ n. true;
  peers = λ n r. r;
  flush = env;
  signal = false;
}

abbrev pub broker_error : Iteration
broker_error = record (turn_of "" "" sends_well) {
  message = some (record { error = some other; topic = ""; value = none });
}

-- A whale, a transfer, a text that is not JSON, and an error that ends the loop.
abbrev pub four_turns : List Iteration
four_turns =
    turn_of "transactions" "whale" sends_well
    ∷ turn_of "token_transfers" "transfer" sends_well
    ∷ turn_of "blocks" "???" sends_well
    ∷ broker_error
    ∷ []

abbrev pub shutdown_env : ShutdownEnv
shutdown_env = record {
  flush = sends_well;
  producer_flush = record { remaining = 0; reports = [] };
  kafka_close = true;
  pool_close = true;
}

abbrev pub start : State
start = initial (record { transactions = []; token_transfers = [] }) (λ key now. none) 40

abbrev pub whale_row : TransactionModel
whale_row = record {
  hash = "0xa";
  timestamp = pos 7000000;
  from_address = "0x1";
  to_address = none;
  value = pos 200000000000000000000;
  gas_price = pos 0;
}

-- One whale waits in the batch, its offset polled and not committed.
abbrev pub one_whale : State
one_whale = record start { tx_batch = whale_row ∷ []; position = 41 }

abbrev pub waiting_transfer : TokenTransferModel
waiting_transfer = record {
  transaction_hash = "0xb";
  log_index = pos 3;
  timestamp = none;
  block_number = pos 10;
  token_address = "0xt";
  from_address = "0x1";
  to_address = "0x2";
  value = pos 0;
}
