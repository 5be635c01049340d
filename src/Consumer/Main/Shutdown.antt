-- ===== src/Consumer/Main/Shutdown.antt =====
-- The `finally` block of `main`: it loses nothing, and it closes what it can.
use eth_project.Prelude.{
  ◌≤◌, ◌≡◌, refl, inl, inr, Bool, true, false, List, [], Bool-cases, non_empty, ◌||◌,
}
use eth_project.Runtime.{Runtime}
use eth_project.Action.{Result, ok, raised, continue}
use eth_project.Consumer.Producer.{FlushOutcome}
use eth_project.Consumer.State.{State}
use eth_project.Consumer.Flush.{FlushEnv}
use eth_project.Consumer.Main.{
  Iteration, ShutdownEnv, main_loop, shutdown, close_producer, close_clients, flush_rest, main,
}
use eth_project.Consumer.Main.Kind.{Kind}
use eth_project.Consumer.Main.Ledger.{Moves, stay}
use eth_project.Consumer.Main.Moves.{ledger, flush-Moves}
use eth_project.Consumer.Main.Durable.{IsSound, Moves-IsSound, journal}
use eth_project.Consumer.Main.NoLoss.{AllKept, AllKept-sound, loop-IsSound}

pub finally_state : (r r' : Result (Unit {0})) (t : State) → (continue r' (λ _ u. (r, u)) t).1 ≡ t
finally_state r (ok a) t = refl
finally_state r (raised e) t = refl

module _ {A : Type 0} (kind : Kind A) where
  open kind use {same}

  close_clients-Moves :
      (k p : Bool) (s : State) → Moves same (ledger kind s) (ledger kind (close_clients k p s).1)
  close_clients-Moves true true s = stay refl (kind.batch_frame s _ refl refl) refl refl
  close_clients-Moves true false s = stay refl (kind.batch_frame s _ refl refl) refl refl
  close_clients-Moves false p s = stay refl refl refl refl

  close_producer-Moves :
      (out : FlushOutcome) (s : State)
      → Moves same (ledger kind s) (ledger kind (close_producer out s))
  unfolding close_producer
  close_producer-Moves out s = stay refl (kind.batch_frame s _ refl refl) refl refl

  flush_rest-Moves :
      (rt : Runtime) (env : FlushEnv) (s : State)
      → Moves same (ledger kind s) (ledger kind (flush_rest rt env s))
  unfolding flush_rest
  flush_rest-Moves rt env s = elim (Bool-cases (non_empty s.tx_batch || non_empty s.token_batch)) [
    | inl some_rows ↦ rw some_rows (flush-Moves kind rt env s)
    | inr nothing ↦ rw nothing (stay refl refl refl refl)
  ]

  -- What every move of the ledger preserves, the block preserves.
  pub shutdown-preserves :
      (P : State → Type 0) (rt : Runtime) (env : ShutdownEnv) (s : State)
      → ((t u : State) → Moves same (ledger kind t) (ledger kind u) → P t → P u)
      → P s
      → P (shutdown rt env s).1
  unfolding shutdown
  shutdown-preserves P rt env s step h =
      step _ _ (close_clients-Moves env.kafka_close env.pool_close _) (
        step (flush_rest rt env.flush s) _ (close_producer-Moves env.producer_flush _)
          (step s _ (flush_rest-Moves rt env.flush s) h))

  -- `main` loses no record that it accepted: at its end each is in the table or in the batch that was
  -- left, and in the table if the offset of its message was committed. This holds also when flushes,
  -- Kafka, Redis or the producer fail, and when an exception ends the loop, from any state whose
  -- committed offset does not exceed its position.
  pub main_no_loss :
      (rt : Runtime) (its : List Iteration) (env : ShutdownEnv) (s : State)
      → s.committed ≤ s.position
      → AllKept kind (main rt its env s).1 (journal kind rt its s)
  unfolding main
  main_no_loss rt its env s h =
      rw
        (finally_state (main_loop rt its s).0 (shutdown rt env (main_loop rt its s).1).0
          (shutdown rt env (main_loop rt its s).1).1)
        (AllKept-sound kind _ (journal kind rt its s) (
          shutdown-preserves (λ t. IsSound kind t (journal kind rt its s)) rt env _
            (λ t u. Moves-IsSound kind t u _)
            (loop-IsSound kind rt its s [] (record { behind = h; safe = tt }))))

close_clients_lem :
    (s : State)
    → ((close_clients true true s).0 ≡ ok tt)
      × ((close_clients true true s).1.kafka_open ≡ false)
      × ((close_clients true true s).1.pool_open ≡ false)
close_clients_lem s = (refl, refl, refl)

-- Whatever happened in the loop and in the last flush, when the two clients can be closed then
-- `main` closes them, and it ends with the loop's own result.
pub main_closes :
    (rt : Runtime) (its : List Iteration) (env : ShutdownEnv) (s : State)
    → env.kafka_close ≡ true
    → env.pool_close ≡ true
    → ((main rt its env s).1.kafka_open ≡ false)
      × ((main rt its env s).1.pool_open ≡ false)
      × ((main rt its env s).0 ≡ (main_loop rt its s).0)
unfolding main shutdown
main_closes rt its env s k p = rw (k, p) (refl, refl, refl)
