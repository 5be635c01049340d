-- ===== src/Consumer/Flush/Steps.antt =====
-- The steps of `flush_batches`, and what the body of its `try` leaves behind.
use mathlib.Core.List.{append-nil}
use eth_project.Prelude.{
  ℕ, ◌+◌, ◌≡◌, refl, sym, ap, ◌⊎◌, inl, inr, [], ◌++◌, map, select, Bool-cases, non_empty,
}
use eth_project.Runtime.{Runtime}
use eth_project.Action.{Exception, Action, ok, raised, ◌>>◌, Result}
use eth_project.Action.Outcomes.{After, Ensures, Ensures-bind, Ensures-call}
use eth_project.Consumer.Database.{Database}
use eth_project.Consumer.Producer.{Producer, is_whale, whale_message, publish_whale_alerts}
use eth_project.Consumer.Producer.Laws.{publish_ok, publish-IsPrefix}
use eth_project.Consumer.State.{State}
use eth_project.Consumer.Flush.{
  FlushEnv, insert_transactions, insert_token_transfers, commit, publish, kafka_commit,
  clear_batches, write_batches,
}
use eth_project.Consumer.Flush.States.{
  Flushed, Kept, written, half_written, insert_transactions_batch_lem, skip_transactions,
  insert_token_transfers_batch_lem, skip_token_transfers, at,
}

module _ (rt : Runtime) (env : FlushEnv) (s : State) where
  abbrev Raises : Exception → State → Type 0
  Raises e t = Kept rt (s.leased + 1) s t

  abbrev Final : Unit {0} → State → Type 0
  Final _ t = Flushed rt (s.leased + 1) s t

  unsent_Kept :
      (view db : Database)
      → (db ≡ s.database) ⊎ (db ≡ written s)
      → Kept rt (s.leased + 1) s (at s view db)
  unsent_Kept view db d = record {
    database = d;
    sent = [];
    unsent = map (whale_message rt) (select is_whale s.tx_batch);
    produced = sym (append-nil s.producer.produced);
    whales = refl;
    position = refl;
    committed = refl;
    leased = refl;
    tx_batch = refl;
    token_batch = refl;
    running = refl;
  }

  insert_transactions_lem :
      Ensures
        (λ _ u. u ≡ at s (half_written s) s.database)
        Raises
        (insert_transactions env)
        (at s s.database s.database)
  unfolding insert_transactions
  insert_transactions_lem = elim (Bool-cases (non_empty s.tx_batch)) [
    | inl full ↦ rw full (
        Ensures-call (λ _ u. u ≡ at s (half_written s) s.database) Raises env.insert_transactions _
          _ _ (λ _. ap (λ v. at s v s.database) (insert_transactions_batch_lem s s.database))
          (λ _. unsent_Kept s.database s.database (inl refl)))
    | inr bare ↦ rw bare (ap (λ v. at s v s.database) (sym (skip_transactions s bare)))
  ]

  insert_token_transfers_lem :
      Ensures
        (λ _ u. u ≡ at s (written s) s.database)
        Raises
        (insert_token_transfers env)
        (at s (half_written s) s.database)
  unfolding insert_token_transfers
  insert_token_transfers_lem = elim (Bool-cases (non_empty s.token_batch)) [
    | inl full ↦ rw full (
        Ensures-call (λ _ u. u ≡ at s (written s) s.database) Raises env.insert_token_transfers _ _
          _ (λ _. ap (λ v. at s v s.database) (insert_token_transfers_batch_lem s (half_written s)))
          (λ _. unsent_Kept (half_written s) s.database (inl refl)))
    | inr bare ↦ rw bare (ap (λ v. at s v s.database) (sym (skip_token_transfers s bare)))
  ]

  commit_lem :
      Ensures
        (λ _ u. u ≡ at s (written s) (written s))
        Raises
        (commit env)
        (at s (written s) s.database)
  unfolding commit
  commit_lem =
      Ensures-call (λ _ u. u ≡ at s (written s) (written s)) Raises env.commit _ _ _ (λ _. refl)
        (λ _. unsent_Kept (written s) s.database (inl refl))

  -- The producer has one alert for each whale of the batch.
  record Published (t : State) : Type 0 where
    producer : Producer
    state : t ≡ record (at s (written s) (written s)) { producer = producer }
    produced :
        producer.produced
        ≡ s.producer.produced ++ map (whale_message rt) (select is_whale s.tx_batch)

  published :
      (r : Result ℕ)
      → (publish_whale_alerts rt env.sends env.flush s.tx_batch s.producer).0 ≡ r
      → After
          (λ _ u. Published u)
          Raises
          r
          (record (at s (written s) (written s)) {
            producer = (publish_whale_alerts rt env.sends env.flush s.tx_batch s.producer).1;
          })
  published (ok n) e = record {
    producer = (publish_whale_alerts rt env.sends env.flush s.tx_batch s.producer).1;
    state = refl;
    produced = (publish_ok rt env.sends env.flush s.tx_batch s.producer n e).1;
  }
  published (raised x) e =
      let (sent, unsent, made, split) =
        publish-IsPrefix rt env.sends env.flush s.tx_batch s.producer in
      record {
        database = inr refl;
        sent = sent;
        unsent = unsent;
        produced = made;
        whales = split;
        position = refl;
        committed = refl;
        leased = refl;
        tx_batch = refl;
        token_batch = refl;
        running = refl;
      }

  publish_lem : Ensures (λ _ u. Published u) Raises (publish rt env) (at s (written s) (written s))
  unfolding publish
  publish_lem = published (publish_whale_alerts rt env.sends env.flush s.tx_batch s.producer).0 refl

  all_sent_Kept : (t : State) → Published t → Kept rt (s.leased + 1) s t
  all_sent_Kept t g = rw g.state (record {
    database = inr refl;
    sent = map (whale_message rt) (select is_whale s.tx_batch);
    unsent = [];
    produced = g.produced;
    whales = sym (append-nil _);
    position = refl;
    committed = refl;
    leased = refl;
    tx_batch = refl;
    token_batch = refl;
    running = refl;
  })

  last_steps :
      (t : State)
      → Published t
      → Ensures (λ _ u. Flushed rt (s.leased + 1) s u) Raises (kafka_commit env >> clear_batches) t
  unfolding kafka_commit clear_batches
  last_steps t g = elim (Bool-cases env.kafka_commit) [
    | inl done ↦
        rw (done, g.state)
          (record {
            database = refl;
            produced = g.produced;
            position = refl;
            committed = refl;
            leased = refl;
            tx_batch = refl;
            token_batch = refl;
            running = refl;
          })
    | inr lost ↦ rw lost (all_sent_Kept t g)
  ]

  pub write_batches_lem :
      Ensures
        (λ _ u. Flushed rt (s.leased + 1) s u)
        Raises
        (write_batches rt env)
        (at s s.database s.database)
  unfolding write_batches
  write_batches_lem =
      Ensures-bind (λ _ u. u ≡ at s (half_written s) s.database) Final Raises
        (insert_transactions env) (λ _. insert_token_transfers env >> committing) _
        insert_transactions_lem
        λ _ t g. rw g (
          Ensures-bind (λ _ u. u ≡ at s (written s) s.database) Final Raises
            (insert_token_transfers env) (λ _. committing) _ insert_token_transfers_lem
            λ _ t g. rw g (
              Ensures-bind (λ _ u. u ≡ at s (written s) (written s)) Final Raises (commit env)
                (λ _. publishing) _ commit_lem
                λ _ t g. rw g (
                  Ensures-bind (λ _ u. Published u) Final Raises (publish rt env)
                    (λ _. kafka_commit env >> clear_batches) _ publish_lem λ _. last_steps)))
    where
      publishing : Action State (Unit {0})
      publishing = publish rt env >> (kafka_commit env >> clear_batches)

      committing : Action State (Unit {0})
      committing = commit env >> publishing
