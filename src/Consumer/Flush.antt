-- ===== src/Consumer/Flush.antt =====
-- `flush_batches` of consumer/main.py.
pub mod States
pub mod Steps
pub mod Outcome
pub mod Retry
pub mod Rows
use eth_project.Prelude.{ℕ, ◌+◌, ◌-◌, Bool, true, false, List, [], non_empty, if◌then◌else◌}
use eth_project.Runtime.{Runtime}
use eth_project.Action.{
  Action, Result, ok, raised, database_error, kafka_exception, pure, call, continue, ◌>>=◌, ◌>>◌,
  on_exception, finally,
}
use eth_project.Consumer.Database.{insert_transactions_batch, insert_token_transfers_batch}
use eth_project.Consumer.Producer.{Producer, SendOutcome, FlushOutcome, publish_whale_alerts}
use eth_project.Consumer.State.{State}

-- Whether each call of an external library returns, in one run of `flush_batches`.
pub record FlushEnv : Type 0 where
  pub get_connection : Bool
  pub insert_transactions : Bool
  pub insert_token_transfers : Bool
  pub commit : Bool
  pub rollback : Bool
  pub release : Bool
  pub kafka_commit : Bool
  pub sends : ℕ → SendOutcome
  pub flush : FlushOutcome

-- The first statement of a transaction sees the committed tables.
pub get_connection : FlushEnv → Action State (Unit {0})
get_connection env =
    call env.get_connection database_error
      (λ s. record s { session = s.database; leased = s.leased + 1 })

insert_transactions : FlushEnv → Action State (Unit {0})
insert_transactions env s =
    if non_empty s.tx_batch
    then call env.insert_transactions database_error
        (λ s. record s { session = insert_transactions_batch s.tx_batch s.session }) s
    else (ok tt, s)

insert_token_transfers : FlushEnv → Action State (Unit {0})
insert_token_transfers env s =
    if non_empty s.token_batch
    then call env.insert_token_transfers database_error
        (λ s. record s { session = insert_token_transfers_batch s.token_batch s.session }) s
    else (ok tt, s)

commit : FlushEnv → Action State (Unit {0})
commit env = call env.commit database_error (λ s. record s { database = s.session })

pub rollback : FlushEnv → Action State (Unit {0})
rollback env = call env.rollback database_error (λ s. record s { session = s.database })

pub release_connection : FlushEnv → Action State (Unit {0})
release_connection env = call env.release database_error (λ s. record s { leased = s.leased - 1 })

-- An action of the producer, run on the state's producer.
with_producer : {A : Type 0} → Action Producer A → Action State A
with_producer m s = let (r, p) = m s.producer in (r, record s { producer = p })

publish : Runtime → FlushEnv → Action State ℕ
unfolding with_producer
publish rt env s = with_producer (publish_whale_alerts rt env.sends env.flush s.tx_batch) s

kafka_commit : FlushEnv → Action State (Unit {0})
kafka_commit env = call env.kafka_commit kafka_exception (λ s. record s { committed = s.position })

clear_batches : Action State (Unit {0})
clear_batches s = (ok tt, record s { tx_batch = []; token_batch = [] })

-- The body of the `try`.
pub write_batches : Runtime → FlushEnv → Action State (Unit {0})
unfolding insert_transactions insert_token_transfers commit publish kafka_commit clear_batches
write_batches rt env = do
  insert_transactions env
  insert_token_transfers env
  commit env
  publish rt env
  kafka_commit env
  clear_batches

unfoldable pub flush_batches : Runtime → FlushEnv → Action State (Unit {0})
unfolding get_connection write_batches rollback release_connection
flush_batches rt env = do
  get_connection env
  finally (on_exception (write_batches rt env) (rollback env)) (release_connection env)
