-- ===== src/Tests/Dashboard.antt =====
-- The theorems about the dashboard backend, at concrete inputs.
use eth_project.Prelude.{
  ◌≤◌, ℕ, zero, suc, ◌+◌, ◌<◌, ◌≡◌, refl, String, Bool, true, false, Option, none, some, List, [],
  ◌∷◌, ◌++◌, map, pos, arith, length, ◌||◌,
}
use eth_project.Json.{null, str, obj}
use eth_project.Consumer.Producer.{Payload}
use eth_project.Backend.Sockets.{
  Socket, Manager, gather, admitted, register, remove, ping_turn, broadcast, send_to_connection,
  disconnect,
}
use eth_project.Backend.Sockets.Broadcast.{has, broadcast_order}
use eth_project.Backend.Sockets.Heartbeat.{running, run_heartbeats}
use eth_project.Backend.Sockets.Events.{
  Server, Event, arrive, accepted, leave, heartbeat, heartbeat_ended, step, AtMost, run, run_bound,
}
use eth_project.Backend.Sockets.Burst.{connect_burst}
use eth_project.Backend.Alerts.{
  Decoder, decode_whale_alert, Turn, nothing, poll_error, message, cancelled, Listener,
  consume_whale_alerts,
}
use eth_project.Backend.Alerts.Roundtrip.{alert_fields, decode_alert}
use eth_project.Backend.Alerts.Delivery.{
  alerts, broadcasts, before_cancel, has_cancel, errors, consume_delivers,
}
use eth_project.Backend.Caching.{
  Codec, Shared, Request, answer, gas_hit, look, locked, waiters, get_cached,
}
use eth_project.Backend.Caching.Stampede.{Answered, Loads, stampede, get_within}
use eth_project.Action.{raised, cloud_error}
use eth_project.Backend.Lifespan.{
  App, Calls, startup, lifespan, shut_down, nothing_held, lifespan_releases, es_failure,
}
use eth_project.Backend.Wallets.{EthRow, TokenRow, WalletHistory, outgoing, get_wallet_history}
use eth_project.Backend.Wallets.Directions.{Directed, wallet-Directed}
use eth_project.Backend.Wallets.Failures.{creation_fails}

abbrev three_clients : Manager
three_clients = record {
  active_connections = 1 ∷ 2 ∷ 3 ∷ [];
  max_connections = 10;
  heartbeats = true ∷ [];
  sent = [];
}

-- The second client is gone.
abbrev all_but_two : Socket → Bool
all_but_two zero = true
all_but_two (suc zero) = true
all_but_two (suc (suc zero)) = false
all_but_two (suc (suc (suc n))) = true

broadcast_order_example :
    ((gather all_but_two null (3 ∷ 2 ∷ 1 ∷ []) three_clients).active_connections ≡ 1 ∷ 3 ∷ [])
    × ((gather all_but_two null (3 ∷ 2 ∷ 1 ∷ []) three_clients).sent ≡ (3, null) ∷ (1, null) ∷ [])
broadcast_order_example =
    broadcast_order all_but_two null (3 ∷ 2 ∷ 1 ∷ []) three_clients (refl, (refl, (refl, tt)))
      (refl, (refl, (refl, tt)))

abbrev empty_server : Server
empty_server = record {
  manager = record { active_connections = []; max_connections = 1; heartbeats = []; sent = [] };
  accepting = [];
  refused = [];
}

abbrev one_by_one : List Event
one_by_one =
    arrive 1 ∷ accepted 1 ∷ arrive 2 ∷ heartbeat all_but_two ∷ leave 1 ∷ arrive 3 ∷ accepted 3 ∷ []

one_waits : AtMost 1 one_by_one empty_server
unfolding AtMost step admitted register remove ping_turn broadcast gather send_to_connection
    disconnect
one_waits = (
  omega arith,
  (omega arith, (omega arith, (omega arith, (omega arith, (omega arith, (omega arith, tt)))))),
)

run_bound_example : length (run one_by_one empty_server).manager.active_connections < 2
run_bound_example = run_bound 1 one_by_one empty_server refl refl (omega arith) one_waits

-- The first heartbeat ends while another connection waits.
abbrev heartbeat_lost : List Event
heartbeat_lost = arrive 1 ∷ accepted 1 ∷ leave 1 ∷ heartbeat_ended 0 ∷ arrive 2 ∷ []

run_heartbeats_example :
    (running (run heartbeat_lost empty_server).manager.heartbeats ≤ 1)
    × ((ws : Socket)
        → has ws (run heartbeat_lost empty_server).accepting ≡ true
        → running (step (accepted ws) (run heartbeat_lost empty_server)).manager.heartbeats ≡ 1)
run_heartbeats_example = run_heartbeats heartbeat_lost empty_server refl

connect_burst_example :
    (run
      (map arrive (1 ∷ 2 ∷ 3 ∷ []) ++ map accepted (1 ∷ 2 ∷ 3 ∷ []))
      empty_server).manager.active_connections
    ≡ 1 ∷ 2 ∷ 3 ∷ []
connect_burst_example = connect_burst (1 ∷ 2 ∷ 3 ∷ []) empty_server refl room
  where
    room : admitted empty_server.manager ≡ true
    room = unfold admitted in refl

abbrev sample_payload : Payload
sample_payload = record {
  hash = "0xa";
  timestamp = "t";
  from_address = "0x1";
  to_address = none;
  value = pos 7;
  value_eth = (pos 7, 10);
}

abbrev sample_decoder : Decoder
sample_decoder = record {
  loads = λ raw. some (obj (alert_fields sample_payload (str "0.7")));
  to_eth = λ v. some (str "0.70");
}

decode_alert_example :
    decode_whale_alert sample_decoder (some "raw")
    ≡ some (obj (alert_fields sample_payload (str "0.7")))
decode_alert_example =
    decode_alert sample_decoder sample_payload (str "0.7") (str "0.70") "raw" refl refl

abbrev listener : Listener
listener = record { manager = three_clients; backoffs = 0; closed = false }

abbrev five_turns : List Turn
five_turns =
    nothing
    ∷ poll_error
    ∷ message (some "raw") all_but_two
    ∷ cancelled
    ∷ message (some "raw") all_but_two
    ∷ []

consume_delivers_example :
    ((consume_whale_alerts sample_decoder five_turns listener).manager
      ≡ broadcasts (alerts sample_decoder (before_cancel five_turns)) three_clients)
    × ((consume_whale_alerts sample_decoder five_turns listener).backoffs
        ≡ 0 + errors (before_cancel five_turns))
    × ((consume_whale_alerts sample_decoder five_turns listener).closed
        ≡ (has_cancel five_turns || false))
consume_delivers_example = consume_delivers sample_decoder five_turns listener

-- A price that Redis holds as its text.
abbrev price_codec : Codec String
price_codec = record { is_hit = gas_hit; encode = λ v. v; decode = λ text. some text }

abbrev request_at : ℕ → Request String
request_at n = record {
  redis = true;
  first_look = (n, true);
  second_look = (n, true);
  write = (n, true);
  database = some "12.5";
}

abbrev cold : Shared
cold = record { cell = none; queries = 0 }

cold_load : Loads price_codec "12.5" (request_at 100) cold
cold_load = record {
  connected = refl;
  missing = unfold look in refl;
  written = refl;
  queried = refl;
}

early_enough : (n : ℕ) → n < 160 → Answered price_codec 160 (request_at n)
early_enough n l = record { connected = refl; read = refl; early = l }

stampede_example :
    ((waiters price_codec (request_at 100 ∷ request_at 101 ∷ request_at 102 ∷ []) cold).0
      ≡ answer "12.5" ∷ answer "12.5" ∷ answer "12.5" ∷ [])
    × ((waiters price_codec (request_at 100 ∷ request_at 101 ∷ request_at 102 ∷ []) cold).1.queries
        ≡ 1)
stampede_example =
    stampede price_codec "12.5" (request_at 100) (request_at 101 ∷ request_at 102 ∷ []) cold refl
      refl cold_load (early_enough 101 (omega arith), (early_enough 102 (omega arith), tt))

get_within_example :
    get_cached price_codec (request_at 150) (locked price_codec (request_at 100) cold).1
    ≡ (answer "12.5", (locked price_codec (request_at 100) cold).1)
get_within_example =
    get_within price_codec "12.5" (request_at 100) (request_at 150) cold refl refl cold_load refl
      refl (omega arith)

abbrev plain : String → String
plain s = s

abbrev sent_row : EthRow
sent_row = record {
  hash = "0xa";
  timestamp = pos 0;
  from_address = some "0x1";
  to_address = some "0x2";
  value = some (pos 5);
  gas_price = none;
  from_label = none;
  to_label = none;
  from_category = none;
  to_category = none;
}

abbrev creation_row : EthRow
creation_row = record sent_row { to_address = none }

abbrev rows_of : List EthRow → String → Option (List EthRow)
rows_of rows address = some rows

abbrev no_transfers : String → Option (List TokenRow)
no_transfers address = some []

abbrev one_sent : WalletHistory
one_sent = record {
  address = "0x1";
  eth_transactions =
      record {
        hash = "0xa";
        timestamp = pos 0;
        type_ = outgoing;
        from_address = "0x1";
        to_address = "0x2";
        value_eth = (pos 5, 1000000000000000000);
        gas_price_gwei = none;
        from_label = none;
        to_label = none;
        from_category = none;
        to_category = none;
      }
      ∷ [];
  token_transfers = [];
}

one_sent_run : get_wallet_history plain (rows_of (sent_row ∷ [])) no_transfers "0x1" ≡ some one_sent
unfolding get_wallet_history
one_sent_run = refl

wallet-Directed_example : Directed plain one_sent × (one_sent.address ≡ plain "0x1")
wallet-Directed_example =
    wallet-Directed plain (rows_of (sent_row ∷ [])) no_transfers "0x1" one_sent refl one_sent_run

creation_fails_example :
    get_wallet_history plain (rows_of (sent_row ∷ creation_row ∷ [])) no_transfers "0x1" ≡ none
creation_fails_example =
    creation_fails plain (rows_of (sent_row ∷ creation_row ∷ [])) no_transfers "0x1" (sent_row ∷ [])
      [] creation_row refl refl

-- The token file cannot be read, so the server does not start.
abbrev no_tokens : Calls
no_tokens = record {
  create_pool = true;
  load_tokens = false;
  load_labels = true;
  redis_ping = true;
  load_es = true;
  served = true;
  heartbeat = true;
  task_ends = true;
  es_close = true;
  redis_close = true;
  pool_close = true;
}

lifespan_releases_example :
    lifespan no_tokens nothing_held ≡ ((startup no_tokens nothing_held).0, nothing_held)
lifespan_releases_example = lifespan_releases no_tokens nothing_held refl refl refl refl

abbrev serving : App
serving = record {
  pool = true;
  redis = true;
  es_client = true;
  whale_consumer_task = true;
  ping = true;
}

abbrev es_down : Calls
es_down = record no_tokens { es_close = false }

es_failure_example :
    ((shut_down es_down serving).0 ≡ raised cloud_error)
    × ((shut_down es_down serving).1.redis ≡ true)
    × ((shut_down es_down serving).1.pool ≡ true)
es_failure_example = es_failure es_down serving refl refl refl
