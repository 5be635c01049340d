-- ===== src/Consumer/Flush/States.antt =====
-- What a flush leaves behind when it returns and when it raises.
use eth_project.Prelude.{
  ℕ, ◌+◌, ◌≡◌, sym, ◌∙◌, ◌⊎◌, false, List, [], ◌++◌, map, arith, select, non_empty,
}
use eth_project.Runtime.{Runtime}
use eth_project.Consumer.Table.{insert_rows}
use eth_project.Consumer.Database.{
  Database, same_transaction, same_transfer, insert_transactions_batch,
  insert_token_transfers_batch,
}
use eth_project.Consumer.Producer.{Message, is_whale, whale_message}
use eth_project.Consumer.State.{State}

-- The tables with the rows of the two batches, each key once.
abbrev pub written : State → Database
written s = record {
  transactions = insert_rows same_transaction s.tx_batch s.database.transactions;
  token_transfers = insert_rows same_transfer s.token_batch s.database.token_transfers;
}

abbrev pub half_written : State → Database
half_written s = record s.database {
  transactions = insert_rows same_transaction s.tx_batch s.database.transactions;
}

pub insert_transactions_batch_lem :
    (s : State) (db : Database)
    → insert_transactions_batch s.tx_batch db
      ≡ record db { transactions = insert_rows same_transaction s.tx_batch db.transactions }
unfolding insert_transactions_batch insert_rows
insert_transactions_batch_lem s db = ground arith

pub skip_transactions : (s : State) → non_empty s.tx_batch ≡ false → half_written s ≡ s.database
skip_transactions s h =
    sym (insert_transactions_batch_lem s s.database) ∙ unfold insert_transactions_batch in rw h

pub insert_token_transfers_batch_lem :
    (s : State) (db : Database)
    → insert_token_transfers_batch s.token_batch db
      ≡ record db { token_transfers = insert_rows same_transfer s.token_batch db.token_transfers }
unfolding insert_token_transfers_batch insert_rows
insert_token_transfers_batch_lem s db = ground arith

pub skip_token_transfers :
    (s : State) → non_empty s.token_batch ≡ false → written s ≡ half_written s
skip_token_transfers s h =
    sym (insert_token_transfers_batch_lem s (half_written s))
    ∙ unfold insert_token_transfers_batch in rw h

-- What a call that returns has done, with `n` connections out.
pub record Flushed (rt : Runtime) (n : ℕ) (s t : State) : Type 0 where
  pub database : t.database ≡ written s
  pub produced :
      t.producer.produced
      ≡ s.producer.produced ++ map (whale_message rt) (select is_whale s.tx_batch)
  pub position : t.position ≡ s.position
  pub committed : t.committed ≡ s.position
  pub leased : t.leased ≡ n
  pub tx_batch : t.tx_batch ≡ []
  pub token_batch : t.token_batch ≡ []
  pub running : t.running ≡ s.running

-- What a call that raises before its last step leaves: the batches and the offset as they were, the
-- tables as they were or with both batches, and alerts for an initial part of the whales.
pub record Kept (rt : Runtime) (n : ℕ) (s t : State) : Type 0 where
  pub database : (t.database ≡ s.database) ⊎ (t.database ≡ written s)
  pub sent : List Message
  pub unsent : List Message
  pub produced : t.producer.produced ≡ s.producer.produced ++ sent
  pub whales : map (whale_message rt) (select is_whale s.tx_batch) ≡ sent ++ unsent
  pub position : t.position ≡ s.position
  pub committed : t.committed ≡ s.committed
  pub leased : t.leased ≡ n
  pub tx_batch : t.tx_batch ≡ s.tx_batch
  pub token_batch : t.token_batch ≡ s.token_batch
  pub running : t.running ≡ s.running

-- The states between two steps of the body, by what the connection sees and what is committed.
abbrev pub at : State → Database → Database → State
at s view db = record s { session = view; database = db; leased = s.leased + 1 }
