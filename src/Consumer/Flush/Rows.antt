-- ===== src/Consumer/Flush/Rows.antt =====
-- The tables after a flush, seen as maps from their keys: a key keeps the first row that it got.
use eth_project.Prelude.{
  ◌≡◌, refl, sym, ◌∙◌, ap, String, str_eq, str_eq_iff, eqb_ℤ, eqb_ℤ_iff, Bool, true, false, ◌&&◌,
  Option, none, some, List, [], ◌∷◌, ◌++◌, ℤ, any_of, arith, Bool-cases, inl, inr, if◌then◌else◌,
}
use eth_project.Runtime.{Runtime, DateTime}
use eth_project.Action.{ok}
use eth_project.Consumer.Models.{TransactionModel, TokenTransferModel}
use eth_project.Consumer.Table.{insert_row, insert_rows}
use eth_project.Consumer.Database.{Database, same_transaction, same_transfer, same_time}
use eth_project.Consumer.State.{State}
use eth_project.Consumer.Flush.{FlushEnv, flush_batches}
use eth_project.Consumer.Flush.Outcome.{flush_returns}

abbrev pub or_else : {A : Type 0} → Option A → Option A → Option A
or_else none o = o
or_else (some x) o = some x

or_else-none : {A : Type 0} (o : Option A) → o ≡ or_else o none
or_else-none none = refl
or_else-none (some x) = refl

or_else_assoc : {A : Type 0} (a b c : Option A) → or_else (or_else a b) c ≡ or_else a (or_else b c)
or_else_assoc none b c = refl
or_else_assoc (some x) b c = refl

module _ {A : Type 0} where
  abbrev pub first : (A → Bool) → List A → Option A
  first p [] = none
  first p (x ∷ xs) = if p x then some x else first p xs

  first-append : (p : A → Bool) (t u : List A) → first p (t ++ u) ≡ or_else (first p t) (first p u)
  first-append p [] u = refl
  first-append p (x ∷ t) u = elim (Bool-cases (p x)) [
    | inl e ↦ rw e refl
    | inr e ↦ rw e (first-append p t u)
  ]

  module _ (same : A → A → Bool) (p : A → Bool)
      (respects : (x y : A) → same x y ≡ true → p x ≡ p y) where
    first_there :
        (x : A) (t : List A) (o : Option A)
        → any_of (same x) t ≡ true
        → p x ≡ true
        → or_else (first p t) o ≡ first p t
    first_there x [] o h e = absurd (ground (arith, h))
    first_there x (y ∷ t) o h e = elim (Bool-cases (p y)) [
      | inl f ↦ rw f refl
      | inr f ↦ rw f (first_there x t o (ground (arith, h, e, f, respects x y)) e)
    ]

    first-insert_row :
        (x : A) (t : List A)
        → first p (insert_row same x t) ≡ or_else (first p t) (first p (x ∷ []))
    unfolding insert_row
    first-insert_row x t = elim (Bool-cases (any_of (same x) t)) [
      | inr new ↦ rw new (first-append p t (x ∷ []))
      | inl old ↦ elim (Bool-cases (p x)) [
        | inl e ↦ rw (old, e) (sym (first_there x t (some x) old e))
        | inr e ↦ rw (old, e) (or_else-none (first p t))
      ]
    ]

    first-insert_rows :
        (xs t : List A) → first p (insert_rows same xs t) ≡ or_else (first p t) (first p xs)
    unfolding insert_rows
    first-insert_rows [] t = or_else-none (first p t)
    first-insert_rows (x ∷ xs) t =
        first-insert_rows xs (insert_row same x t)
        ∙ ap (λ o. or_else o (first p xs)) (first-insert_row x t)
        ∙ or_else_assoc (first p t) (first p (x ∷ [])) (first p xs)
        ∙ ap (or_else (first p t)) (sym (first-append p (x ∷ []) xs))

-- The row with a primary key of infra/postgres/init.sql.
abbrev pub transaction_at : String → DateTime → List TransactionModel → Option TransactionModel
transaction_at hash timestamp =
    first
      (λ x. str_eq (TransactionModel.hash x) hash && eqb_ℤ (TransactionModel.timestamp x) timestamp)

abbrev pub is_at : Option DateTime → DateTime → Bool
is_at none t = false
is_at (some u) t = eqb_ℤ u t

abbrev pub transfer_at : String → ℤ → DateTime → List TokenTransferModel → Option TokenTransferModel
transfer_at hash log_index timestamp = first (λ x.
    str_eq (TokenTransferModel.transaction_hash x) hash
    && (eqb_ℤ (TokenTransferModel.log_index x) log_index
        && is_at (TokenTransferModel.timestamp x) timestamp))

same_transaction-key :
    (hash : String) (timestamp : DateTime) (x y : TransactionModel)
    → same_transaction x y ≡ true
    → (str_eq x.hash hash && eqb_ℤ x.timestamp timestamp)
      ≡ (str_eq y.hash hash && eqb_ℤ y.timestamp timestamp)
unfolding same_transaction
same_transaction-key hash timestamp x y h =
    let a : x.hash ≡ y.hash = (str_eq_iff x.hash y.hash).0 (ground (arith, h)) in
    let b : x.timestamp ≡ y.timestamp = (eqb_ℤ_iff x.timestamp y.timestamp).0 (ground (arith, h)) in
    rw (a, b) refl

same_time_eq : (a b : Option DateTime) → same_time a b ≡ true → a ≡ b
unfolding same_time
same_time_eq none none h = refl
same_time_eq none (some b) h = absurd (ground (arith, h))
same_time_eq (some a) none h = absurd (ground (arith, h))
same_time_eq (some a) (some b) h = ap some ((eqb_ℤ_iff a b).0 h)

same_transfer-key :
    (hash : String) (log_index : ℤ) (timestamp : DateTime) (x y : TokenTransferModel)
    → same_transfer x y ≡ true
    → (str_eq x.transaction_hash hash
        && (eqb_ℤ x.log_index log_index && is_at x.timestamp timestamp))
      ≡ (str_eq y.transaction_hash hash
          && (eqb_ℤ y.log_index log_index && is_at y.timestamp timestamp))
unfolding same_transfer
same_transfer-key hash log_index timestamp x y h =
    let a : x.transaction_hash ≡ y.transaction_hash =
      (str_eq_iff x.transaction_hash y.transaction_hash).0 (ground (arith, h)) in
    let b : x.log_index ≡ y.log_index = (eqb_ℤ_iff x.log_index y.log_index).0 (ground (arith, h)) in
    let c : x.timestamp ≡ y.timestamp = same_time_eq x.timestamp y.timestamp (ground (arith, h)) in
    rw (a, b, c) refl

-- After a flush that returns, each table holds for a primary key the row that it held before, or else the
-- first row of its batch with that key.
pub flush_rows :
    (rt : Runtime) (env : FlushEnv) (s : State) (hash : String) (timestamp : DateTime)
    (transaction_hash : String) (log_index : ℤ) (time : DateTime)
    → (flush_batches rt env s).0 ≡ ok tt
    → (transaction_at hash timestamp (flush_batches rt env s).1.database.transactions
        ≡ or_else
            (transaction_at hash timestamp s.database.transactions)
            (transaction_at hash timestamp s.tx_batch))
      × (transfer_at transaction_hash log_index time
            (flush_batches rt env s).1.database.token_transfers
          ≡ or_else
              (transfer_at transaction_hash log_index time s.database.token_transfers)
              (transfer_at transaction_hash log_index time s.token_batch))
flush_rows rt env s hash timestamp transaction_hash log_index time h =
    let kept = flush_returns rt env s h in
    (
      ap (λ db. transaction_at hash timestamp (Database.transactions db)) kept.database
          ∙ first-insert_rows same_transaction _ (same_transaction-key hash timestamp) s.tx_batch
              s.database.transactions,
      ap (λ db. transfer_at transaction_hash log_index time (Database.token_transfers db))
            kept.database
          ∙ first-insert_rows same_transfer _ (same_transfer-key transaction_hash log_index time)
              s.token_batch s.database.token_transfers,
    )
