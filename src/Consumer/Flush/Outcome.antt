-- ===== src/Consumer/Flush/Outcome.antt =====
-- What a call of `flush_batches` leaves behind, whether it returns or raises.
use mathlib.Core.Path.{subst}
use eth_project.Prelude.{◌+◌, ◌≡◌, refl, false, arith}
use eth_project.Runtime.{Runtime}
use eth_project.Action.{Exception, Action, ok, raised, finally, on_exception}
use eth_project.Action.Outcomes.{
  After, Ensures, Ensures-bind, Ensures-call, Ensures-on_exception, Ensures-finally,
}
use eth_project.Consumer.State.{State}
use eth_project.Consumer.Flush.{
  FlushEnv, flush_batches, write_batches, get_connection, rollback, release_connection,
}
use eth_project.Consumer.Flush.States.{Flushed, Kept}
use eth_project.Consumer.Flush.Steps.{write_batches_lem}

-- The states in which a call may raise.
pub data Failed (rt : Runtime) (env : FlushEnv) (s t : State) : Type 0 where
  no_connection : env.get_connection ≡ false → t ≡ s → Failed rt env s t
  kept : Kept rt s.leased s t → Failed rt env s t
  leaked : env.release ≡ false → Kept rt (s.leased + 1) s t → Failed rt env s t
  late : env.release ≡ false → Flushed rt (s.leased + 1) s t → Failed rt env s t

module _ (rt : Runtime) (env : FlushEnv) (s : State) where
  rollback_Kept :
      (t : State)
      → Kept rt (s.leased + 1) s t
      → Ensures
          (λ _ u. Kept rt (s.leased + 1) s u)
          (λ _ u. Kept rt (s.leased + 1) s u)
          (rollback env)
          t
  unfolding rollback
  rollback_Kept t k =
      Ensures-call (λ _ u. Kept rt (s.leased + 1) s u) (λ _ u. Kept rt (s.leased + 1) s u)
        env.rollback _ _ t
        (λ _. (record {
          database = k.database;
          sent = k.sent;
          unsent = k.unsent;
          produced = k.produced;
          whales = k.whales;
          position = k.position;
          committed = k.committed;
          leased = k.leased;
          tx_batch = k.tx_batch;
          token_batch = k.token_batch;
          running = k.running;
        }))
        (λ _. k)

  release_Kept :
      (t : State)
      → Kept rt (s.leased + 1) s t
      → Ensures (λ _ u. Failed rt env s u) (λ _ u. Failed rt env s u) (release_connection env) t
  unfolding release_connection
  release_Kept t k =
      Ensures-call (λ _ u. Failed rt env s u) (λ _ u. Failed rt env s u) env.release _ _ t
        (λ _. kept (record {
          database = k.database;
          sent = k.sent;
          unsent = k.unsent;
          produced = k.produced;
          whales = k.whales;
          position = k.position;
          committed = k.committed;
          leased = omega (arith, k.leased);
          tx_batch = k.tx_batch;
          token_batch = k.token_batch;
          running = k.running;
        }))
        (λ off. leaked off k)

  release_Flushed :
      (t : State)
      → Flushed rt (s.leased + 1) s t
      → Ensures
          (λ _ u. Flushed rt s.leased s u)
          (λ _ u. Failed rt env s u)
          (release_connection env)
          t
  unfolding release_connection
  release_Flushed t k =
      Ensures-call (λ _ u. Flushed rt s.leased s u) (λ _ u. Failed rt env s u) env.release _ _ t
        (λ _. (record {
          database = k.database;
          produced = k.produced;
          position = k.position;
          committed = k.committed;
          leased = omega (arith, k.leased);
          tx_batch = k.tx_batch;
          token_batch = k.token_batch;
          running = k.running;
        }))
        (λ off. late off k)

  connected : State
  connected = record s { session = s.database; leased = s.leased + 1 }

  get_connection_lem :
      Ensures (λ _ u. u ≡ connected) (λ _ u. Failed rt env s u) (get_connection env) s
  unfolding get_connection connected
  get_connection_lem =
      Ensures-call (λ _ u. u ≡ connected) (λ _ u. Failed rt env s u) env.get_connection _ _ s
        (λ _. refl) (λ off. no_connection off refl)

  guarded : Action State (Unit {0})
  guarded = finally (on_exception (write_batches rt env) (rollback env)) (release_connection env)

  guarded_lem :
      Ensures (λ _ u. Flushed rt s.leased s u) (λ _ u. Failed rt env s u) guarded connected
  unfolding guarded connected
  guarded_lem =
      Ensures-finally (λ _ u. Flushed rt (s.leased + 1) s u) (λ _ u. Flushed rt s.leased s u)
        (λ _ u. Kept rt (s.leased + 1) s u) (λ _ u. Failed rt env s u)
        (on_exception (write_batches rt env) (rollback env)) (release_connection env) connected
        (Ensures-on_exception (λ _ u. Flushed rt (s.leased + 1) s u)
          (λ _ u. Kept rt (s.leased + 1) s u) (λ _ u. Kept rt (s.leased + 1) s u)
          (write_batches rt env) (rollback env) connected (write_batches_lem rt env s)
          (λ _. rollback_Kept))
        (λ _. release_Flushed) (λ _. release_Kept)

  pub flush_batches_lem :
      Ensures (λ _ u. Flushed rt s.leased s u) (λ _ u. Failed rt env s u) (flush_batches rt env) s
  unfolding flush_batches guarded
  flush_batches_lem =
      Ensures-bind (λ _ u. u ≡ connected) (λ _ u. Flushed rt s.leased s u)
        (λ _ u. Failed rt env s u) (get_connection env) (λ _. guarded) s get_connection_lem
        λ _ t g. rw g guarded_lem

  -- A call that returns has written both batches to the tables, sent an alert for each whale of the
  -- transactions, committed the offset that was polled, emptied the batches and given its connection
  -- back.
  pub flush_returns :
      (flush_batches rt env s).0 ≡ ok tt → Flushed rt s.leased s (flush_batches rt env s).1
  flush_returns h =
      subst
        (λ r.
          After (λ _ u. Flushed rt s.leased s u) (λ _ u. Failed rt env s u) r
            (flush_batches rt env s).1)
        h flush_batches_lem

  -- A call that raises leaves one of the states of `Failed`: nothing happened; or the batches and
  -- the committed offset are kept, the tables hold all of both batches or are as they were, and
  -- alerts went out for an initial part of the whales; or only giving the connection back failed.
  pub flush_raises :
      (e : Exception)
      → (flush_batches rt env s).0 ≡ raised e
      → Failed rt env s (flush_batches rt env s).1
  flush_raises e h =
      subst
        (λ r.
          After (λ _ u. Flushed rt s.leased s u) (λ _ u. Failed rt env s u) r
            (flush_batches rt env s).1)
        h flush_batches_lem
