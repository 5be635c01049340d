-- ===== src/Consumer/Database.antt =====
-- consumer/db.py: the two batch insertions of `DatabaseManager`, over tables whose keys are those
-- of the `ON CONFLICT` clauses. A connection works on its own view, `session`, until it commits.
-- A stored transfer keeps the model's block number, which the table has no column for.
use eth_project.Prelude.{
  ◌≡◌, ◌↔◌, refl, Bool, true, false, ◌&&◌, Option, none, some, List, arith, eqb_ℤ, eqb_ℤ_iff,
  str_eq, str_eq_iff, str_eq_refl, non_empty, if◌then◌else◌,
}
use eth_project.Runtime.{DateTime}
use eth_project.Consumer.Models.{TransactionModel, TokenTransferModel}
use eth_project.Consumer.Table.{insert_rows}

pub record Database : Type 0 where
  pub transactions : List TransactionModel
  pub token_transfers : List TokenTransferModel

-- ON CONFLICT (hash, timestamp)
unfoldable pub same_transaction : TransactionModel → TransactionModel → Bool
same_transaction a b = str_eq a.hash b.hash && eqb_ℤ a.timestamp b.timestamp

-- The timestamp of a row that is inserted; the column takes no null (infra/postgres/init.sql).
unfoldable pub same_time : Option DateTime → Option DateTime → Bool
same_time none none = true
same_time none (some b) = false
same_time (some a) none = false
same_time (some a) (some b) = eqb_ℤ a b

-- ON CONFLICT (transaction_hash, log_index, timestamp)
unfoldable pub same_transfer : TokenTransferModel → TokenTransferModel → Bool
unfolding same_time
same_transfer a b =
    str_eq a.transaction_hash b.transaction_hash
    && eqb_ℤ a.log_index b.log_index
    && same_time a.timestamp b.timestamp

-- The effect of the two methods on the connection's view, where the server raises no error.
unfoldable pub insert_transactions_batch : List TransactionModel → Database → Database
insert_transactions_batch transactions db =
    if non_empty transactions
    then record db { transactions = insert_rows same_transaction transactions db.transactions }
    else db

unfoldable pub insert_token_transfers_batch : List TokenTransferModel → Database → Database
insert_token_transfers_batch transfers db =
    if non_empty transfers
    then record db { token_transfers = insert_rows same_transfer transfers db.token_transfers }
    else db

pub same_transaction_refl : (a : TransactionModel) → same_transaction a a ≡ true
unfolding same_transaction
same_transaction_refl a =
    ground (arith, str_eq_refl a.hash, (eqb_ℤ_iff a.timestamp a.timestamp).1 refl)

same_time_refl : (t : Option DateTime) → same_time t t ≡ true
unfolding same_time
same_time_refl none = refl
same_time_refl (some a) = (eqb_ℤ_iff a a).1 refl

pub same_transfer_refl : (a : TokenTransferModel) → same_transfer a a ≡ true
unfolding same_transfer
same_transfer_refl a = ground (
  arith,
  str_eq_refl a.transaction_hash,
  (eqb_ℤ_iff a.log_index a.log_index).1 refl,
  same_time_refl a.timestamp,
)

pub same_transaction_trans :
    (a b c : TransactionModel)
    → same_transaction a b ≡ true
    → same_transaction b c ≡ true
    → same_transaction a c ≡ true
unfolding same_transaction
same_transaction_trans a b c h k = ground (
  arith,
  str_eq_iff a.hash b.hash,
  str_eq_iff b.hash c.hash,
  str_eq_iff a.hash c.hash,
  eqb_ℤ_iff a.timestamp b.timestamp,
  eqb_ℤ_iff b.timestamp c.timestamp,
  eqb_ℤ_iff a.timestamp c.timestamp,
)

same_time_iff : (a b : Option DateTime) → (same_time a b ≡ true) ↔ (a ≡ b)
unfolding same_time
same_time_iff none none = ground arith
same_time_iff none (some b) = ground arith
same_time_iff (some a) none = ground arith
same_time_iff (some a) (some b) = ground (arith, eqb_ℤ_iff a b)

pub same_transfer_trans :
    (a b c : TokenTransferModel)
    → same_transfer a b ≡ true
    → same_transfer b c ≡ true
    → same_transfer a c ≡ true
unfolding same_transfer
same_transfer_trans a b c h k = ground (
  arith,
  str_eq_iff a.transaction_hash b.transaction_hash,
  str_eq_iff b.transaction_hash c.transaction_hash,
  str_eq_iff a.transaction_hash c.transaction_hash,
  eqb_ℤ_iff a.log_index b.log_index,
  eqb_ℤ_iff b.log_index c.log_index,
  eqb_ℤ_iff a.log_index c.log_index,
  same_time_iff a.timestamp b.timestamp,
  same_time_iff b.timestamp c.timestamp,
  same_time_iff a.timestamp c.timestamp,
)
