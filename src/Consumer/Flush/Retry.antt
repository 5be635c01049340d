-- ===== src/Consumer/Flush/Retry.antt =====
-- Flushes that are tried again: `main` logs the exception of `flush_batches` and goes on, and calls
-- it again with the batches that it left.
use eth_project.Prelude.{◌≡◌, refl, ◌∙◌, ◌⊎◌, inl, inr, true, List, []}
use eth_project.Runtime.{Runtime}
use eth_project.Action.{Exception, ok, raised}
use eth_project.Consumer.Models.{TransactionModel, TokenTransferModel}
use eth_project.Consumer.Table.{insert_rows}
use eth_project.Consumer.Table.Laws.{insert_rows_idem}
use eth_project.Consumer.Database.{
  Database, same_transaction, same_transaction_refl, same_transfer, same_transfer_refl,
}
use eth_project.Consumer.State.{State}
use eth_project.Consumer.Flush.{FlushEnv, flush_batches}
use eth_project.Consumer.Flush.States.{written}
use eth_project.Consumer.Flush.Outcome.{
  Failed, no_connection, kept, leaked, late, flush_returns, flush_raises,
}

-- Calls one after another that all raise, each able to give its connection back.
pub data Failing (rt : Runtime) : State → State → Type 0 where
  stop : (s : State) → Failing rt s s
  attempt :
      (env : FlushEnv) (e : Exception) (s t : State)
      → env.release ≡ true
      → (flush_batches rt env s).0 ≡ raised e
      → Failing rt (flush_batches rt env s).1 t
      → Failing rt s t

-- What failing calls leave of the state.
pub record Survived (s t : State) : Type 0 where
  pub database : (t.database ≡ s.database) ⊎ (t.database ≡ written s)
  pub tx_batch : t.tx_batch ≡ s.tx_batch
  pub token_batch : t.token_batch ≡ s.token_batch
  pub position : t.position ≡ s.position
  pub committed : t.committed ≡ s.committed
  pub leased : t.leased ≡ s.leased

Survived-refl : (s : State) → Survived s s
Survived-refl s = record {
  database = inl refl;
  tx_batch = refl;
  token_batch = refl;
  position = refl;
  committed = refl;
  leased = refl;
}

abbrev batches : List TransactionModel → List TokenTransferModel → Database → Database
batches txs tokens db = record {
  transactions = insert_rows same_transaction txs db.transactions;
  token_transfers = insert_rows same_transfer tokens db.token_transfers;
}

-- The batches written over what failing calls left are the batches written once.
written-Survived : (s t : State) → Survived s t → written t ≡ written s
written-Survived s t h = rewrite_batches ∙ go h.database
  where
    rewrite_batches : written t ≡ batches s.tx_batch s.token_batch t.database
    rewrite_batches = rw (h.tx_batch, h.token_batch) refl

    go :
        (t.database ≡ s.database) ⊎ (t.database ≡ written s)
        → batches s.tx_batch s.token_batch t.database ≡ written s
    go (inl old) = rw old refl
    go (inr new) = rw new (
        rw
          (
            insert_rows_idem same_transaction same_transaction_refl s.tx_batch
                s.database.transactions,
            insert_rows_idem same_transfer same_transfer_refl s.token_batch
                s.database.token_transfers,
          )
          refl)

Survived-trans : (s t u : State) → Survived s t → Survived t u → Survived s u
Survived-trans s t u h k = record {
  database = elim k.database [
    | inl old ↦ rw old h.database
    | inr new ↦ inr (new ∙ written-Survived s t h)
  ];
  tx_batch = k.tx_batch ∙ h.tx_batch;
  token_batch = k.token_batch ∙ h.token_batch;
  position = k.position ∙ h.position;
  committed = k.committed ∙ h.committed;
  leased = k.leased ∙ h.leased;
}

Failed-Survived :
    (rt : Runtime) (env : FlushEnv) (s t : State)
    → env.release ≡ true
    → Failed rt env s t
    → Survived s t
Failed-Survived rt env s t h (no_connection off e) = rw e (Survived-refl s)
Failed-Survived rt env s t h (kept k) = record {
  database = k.database;
  tx_batch = k.tx_batch;
  token_batch = k.token_batch;
  position = k.position;
  committed = k.committed;
  leased = k.leased;
}
Failed-Survived rt env s t h (leaked off k) = cc
Failed-Survived rt env s t h (late off f) = cc

Failing-Survived : {rt : Runtime} {s t : State} → Failing rt s t → Survived s t
Failing-Survived (stop s) = Survived-refl s
Failing-Survived {rt} (attempt env e s t h r rest) =
    Survived-trans s _ t (Failed-Survived rt env s _ h (flush_raises rt env s e r))
      (Failing-Survived rest)

-- After any number of calls that raised, each able to give its connection back, a call that returns
-- leaves each row of the batches in the tables once, as one call would have, with the batches empty,
-- the polled offset committed and no connection lost.
pub flush_retried :
    (rt : Runtime) (env : FlushEnv) (s t : State)
    → Failing rt s t
    → (flush_batches rt env t).0 ≡ ok tt
    → ((flush_batches rt env t).1.database ≡ written s)
      × ((flush_batches rt env t).1.tx_batch ≡ [])
      × ((flush_batches rt env t).1.token_batch ≡ [])
      × ((flush_batches rt env t).1.committed ≡ s.position)
      × ((flush_batches rt env t).1.leased ≡ s.leased)
flush_retried rt env s t h r =
    let f = flush_returns rt env t r in
    let k = Failing-Survived h in
    (
      f.database ∙ written-Survived s t k,
      f.tx_batch,
      f.token_batch,
      f.committed ∙ k.position,
      f.leased ∙ k.leased,
    )
