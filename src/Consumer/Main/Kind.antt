-- ===== src/Consumer/Main/Kind.antt =====
-- The two kinds of record that the consumer stores, seen alike.
use mathlib.Core.List.{append-nil}
use eth_project.Prelude.{ℕ, ◌≡◌, refl, sym, Bool, true, List, [], ◌∷◌, ◌++◌, arith}
use eth_project.Runtime.{Runtime}
use eth_project.Consumer.Models.{TransactionModel, TokenTransferModel}
use eth_project.Consumer.Table.{insert_rows}
use eth_project.Consumer.Database.{
  Database, same_transaction, same_transfer, same_transaction_refl, same_transaction_trans,
  same_transfer_refl, same_transfer_trans,
}
use eth_project.Consumer.State.{State}
use eth_project.Consumer.Flush.States.{Flushed, Kept, written}
use eth_project.Consumer.Main.{
  Iteration, Intake, ignored, block, transaction, transfer, keep, polled_state, signalled,
}

pub record Kind (A : Type 0) : Type 0 where
  pub same : A → A → Bool
  pub same_refl : (x : A) → same x x ≡ true
  pub same_trans : (x y z : A) → same x y ≡ true → same y z ≡ true → same x z ≡ true
  pub table : Database → List A
  pub batch : State → List A
  pub pick : Intake → List A
  pub pick-ignored : pick ignored ≡ []
  pub table-written :
      (s : State) → table (written s) ≡ insert_rows same (batch s) (table s.database)
  pub batch-Flushed : (rt : Runtime) (n : ℕ) (s t : State) → Flushed rt n s t → batch t ≡ []
  pub batch-Kept : (rt : Runtime) (n : ℕ) (s t : State) → Kept rt n s t → batch t ≡ batch s
  pub batch-keep :
      (rt : Runtime) (it : Iteration) (i : Intake) (s : State)
      → batch (keep rt it i s).1 ≡ batch s ++ pick i
  pub batch_frame :
      (s t : State) → t.tx_batch ≡ s.tx_batch → t.token_batch ≡ s.token_batch → batch t ≡ batch s
  pub batch-polled :
      (it : Iteration) (s : State) → batch (polled_state it (signalled it s)) ≡ batch s

abbrev pub transaction_of : Intake → List TransactionModel
transaction_of (transaction tx) = tx ∷ []
transaction_of i = []

abbrev pub transfer_of : Intake → List TokenTransferModel
transfer_of (transfer t) = t ∷ []
transfer_of i = []

pub tx_batch-keep :
    (rt : Runtime) (it : Iteration) (i : Intake) (s : State)
    → (keep rt it i s).1.tx_batch ≡ s.tx_batch ++ transaction_of i
unfolding keep
tx_batch-keep rt it (transaction tx) s = refl
tx_batch-keep rt it ignored s = sym (append-nil s.tx_batch)
tx_batch-keep rt it (block b) s = ground (arith, append-nil s.tx_batch)
tx_batch-keep rt it (transfer t) s = sym (append-nil s.tx_batch)

pub token_batch-keep :
    (rt : Runtime) (it : Iteration) (i : Intake) (s : State)
    → (keep rt it i s).1.token_batch ≡ s.token_batch ++ transfer_of i
unfolding keep
token_batch-keep rt it (transfer t) s = refl
token_batch-keep rt it ignored s = sym (append-nil s.token_batch)
token_batch-keep rt it (block b) s = ground (arith, append-nil s.token_batch)
token_batch-keep rt it (transaction tx) s = sym (append-nil s.token_batch)

pub tx_batch-polled :
    (it : Iteration) (s : State) → (polled_state it (signalled it s)).tx_batch ≡ s.tx_batch
unfolding polled_state signalled
tx_batch-polled it s = ground arith

pub token_batch-polled :
    (it : Iteration) (s : State) → (polled_state it (signalled it s)).token_batch ≡ s.token_batch
unfolding polled_state signalled
token_batch-polled it s = ground arith

abbrev pub transactions : Kind TransactionModel
transactions = record {
  same = same_transaction;
  same_refl = same_transaction_refl;
  same_trans = same_transaction_trans;
  table = λ db. db.transactions;
  batch = λ s. s.tx_batch;
  pick = transaction_of;
  pick-ignored = refl;
  table-written = λ s. refl;
  batch-Flushed = λ rt n s t f. f.tx_batch;
  batch-Kept = λ rt n s t k. k.tx_batch;
  batch-keep = tx_batch-keep;
  batch_frame = λ s t a b. a;
  batch-polled = tx_batch-polled;
}

abbrev pub token_transfers : Kind TokenTransferModel
token_transfers = record {
  same = same_transfer;
  same_refl = same_transfer_refl;
  same_trans = same_transfer_trans;
  table = λ db. db.token_transfers;
  batch = λ s. s.token_batch;
  pick = transfer_of;
  pick-ignored = refl;
  table-written = λ s. refl;
  batch-Flushed = λ rt n s t f. f.token_batch;
  batch-Kept = λ rt n s t k. k.token_batch;
  batch-keep = token_batch-keep;
  batch_frame = λ s t a b. b;
  batch-polled = token_batch-polled;
}
