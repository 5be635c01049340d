-- ===== src/Backend/Lifespan.antt =====
-- `lifespan` of backend/main.py, with `init_db_pool` and `close_db_pool` of core/db.py and
-- `RedisManager` of core/redis_client.py: the resources that the server holds, each of whose calls
-- returns or raises.
use eth_project.Prelude.{◌≡◌, refl, Bool, true, false}
use eth_project.Action.{
  Action, Result, ok, raised, database_error, os_error, cloud_error, runtime_error, call, ◌>>◌,
  finally,
}

pub record App : Type 0 where
  pub pool : Bool
  pub redis : Bool
  pub es_client : Bool
  pub whale_consumer_task : Bool
  pub ping : Bool

-- `served` is whether the server runs to its end without an exception, and `heartbeat` whether the
-- heartbeat of the websockets runs then.
pub record Calls : Type 0 where
  pub create_pool : Bool
  pub load_tokens : Bool
  pub load_labels : Bool
  pub redis_ping : Bool
  pub load_es : Bool
  pub served : Bool
  pub heartbeat : Bool
  pub task_ends : Bool
  pub es_close : Bool
  pub redis_close : Bool
  pub pool_close : Bool

-- `RedisManager.connect`: a failure leaves no client.
connect_redis : Bool → Action App (Unit {0})
connect_redis up s = (ok tt, record s { redis = up })

open_es : Action App (Unit {0})
open_es s = (ok tt, record s { es_client = true })

start_task : Action App (Unit {0})
start_task s = (ok tt, record s { whale_consumer_task = true })

-- The `try` up to and with the `yield`. The verification of the Kafka topic raises nothing.
unfoldable pub startup : Calls → Action App (Unit {0})
unfolding connect_redis open_es start_task
startup env = do
  call env.create_pool database_error (λ s. record s { pool = true })
  call env.load_tokens os_error (λ s. s)
  call env.load_labels os_error (λ s. s)
  connect_redis env.redis_ping
  open_es
  call env.load_es cloud_error (λ s. s)
  start_task
  call env.served runtime_error (λ s. record s { ping = env.heartbeat })

-- The task is over once it was awaited, also where it raises another error than its cancellation.
abbrev pub ended : Bool → Result (Unit {0})
ended true = ok tt
ended false = raised runtime_error

abbrev pub stop_task : Bool → Bool → Action App (Unit {0})
stop_task ends true s = (ended ends, record s { whale_consumer_task = false })
stop_task ends false s = (ok tt, s)

-- `manager.stop_ping_loop()`
abbrev pub stop_ping : Action App (Unit {0})
stop_ping s = (ok tt, record s { ping = false })

abbrev pub close_es : Bool → Bool → Action App (Unit {0})
close_es returns true s = call returns cloud_error (λ s. record s { es_client = false }) s
close_es returns false s = (ok tt, s)

-- Their exceptions are logged.
abbrev pub disconnect_redis : Bool → Bool → Action App (Unit {0})
disconnect_redis true true s = (ok tt, record s { redis = false })
disconnect_redis returns connected s = (ok tt, s)

abbrev pub close_db_pool : Bool → Bool → Action App (Unit {0})
close_db_pool true true s = (ok tt, record s { pool = false })
close_db_pool returns there s = (ok tt, s)

-- The `finally`.
unfoldable pub shut_down : Calls → Action App (Unit {0})
shut_down env = do
  (λ s. stop_task env.task_ends s.whale_consumer_task s)
  stop_ping
  (λ s. close_es env.es_close s.es_client s)
  (λ s. disconnect_redis env.redis_close s.redis s)
  (λ s. close_db_pool env.pool_close s.pool s)

unfoldable pub lifespan : Calls → Action App (Unit {0})
unfolding startup shut_down
lifespan env = finally (startup env) (shut_down env)

abbrev pub nothing_held : App
nothing_held = record {
  pool = false;
  redis = false;
  es_client = false;
  whale_consumer_task = false;
  ping = false;
}

-- Each step of the block, where its call returns.
task_stopped :
    (s : App)
    → stop_task true s.whale_consumer_task s ≡ (ok tt, record s { whale_consumer_task = false })
task_stopped s = go s.whale_consumer_task refl
  where
    go :
        (b : Bool)
        → s.whale_consumer_task ≡ b
        → stop_task true b s ≡ (ok tt, record s { whale_consumer_task = false })
    go true e = refl
    go false e = rw e refl

es_closed : (s : App) → close_es true s.es_client s ≡ (ok tt, record s { es_client = false })
es_closed s = go s.es_client refl
  where
    go : (b : Bool) → s.es_client ≡ b → close_es true b s ≡ (ok tt, record s { es_client = false })
    go true e = refl
    go false e = rw e refl

redis_closed : (s : App) → disconnect_redis true s.redis s ≡ (ok tt, record s { redis = false })
redis_closed s = go s.redis refl
  where
    go : (b : Bool) → s.redis ≡ b → disconnect_redis true b s ≡ (ok tt, record s { redis = false })
    go true e = refl
    go false e = rw e refl

pool_closed : (s : App) → close_db_pool true s.pool s ≡ (ok tt, record s { pool = false })
pool_closed s = go s.pool refl
  where
    go : (b : Bool) → s.pool ≡ b → close_db_pool true b s ≡ (ok tt, record s { pool = false })
    go true e = refl
    go false e = rw e refl

shut_down_lem :
    (env : Calls) (s : App)
    → env.task_ends ≡ true
    → env.es_close ≡ true
    → env.redis_close ≡ true
    → env.pool_close ≡ true
    → shut_down env s ≡ (ok tt, nothing_held)
unfolding shut_down
shut_down_lem env s a b c d =
    rw (a, b, c, d)
      (rw (task_stopped s) (
        rw (es_closed (record s { whale_consumer_task = false; ping = false })) (
          rw
            (redis_closed
              (record s { whale_consumer_task = false; ping = false; es_client = false }))
            (rw
              (pool_closed (record s {
                whale_consumer_task = false;
                ping = false;
                es_client = false;
                redis = false;
              }))
              refl))))

-- However far the start-up came and however the server ended: when the calls of the shutdown return,
-- the server holds nothing after it, and it ends with the result of the start-up and the serving.
pub lifespan_releases :
    (env : Calls) (s : App)
    → env.task_ends ≡ true
    → env.es_close ≡ true
    → env.redis_close ≡ true
    → env.pool_close ≡ true
    → lifespan env s ≡ ((startup env s).0, nothing_held)
unfolding lifespan
lifespan_releases env s a b c d = rw (shut_down_lem env (startup env s).1 a b c d) refl

-- An error of the Elasticsearch client that is open at the shutdown leaves Redis and the pool of
-- connections as they were.
pub es_failure :
    (env : Calls) (s : App)
    → env.task_ends ≡ true
    → env.es_close ≡ false
    → s.es_client ≡ true
    → ((shut_down env s).0 ≡ raised cloud_error)
      × ((shut_down env s).1.redis ≡ s.redis)
      × ((shut_down env s).1.pool ≡ s.pool)
unfolding shut_down
es_failure env s a b c = rw (a, b) (rw (task_stopped s) (rw c (refl, refl, refl)))
