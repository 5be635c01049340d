-- ===== src/Consumer/Main/Ledger.antt =====
-- One kind of record on its way through the consumer: from the message at an offset into the batch,
-- and by a flush into the table. A journal lists the records that were accepted, with their offsets.
use eth_project.Prelude.{
  ℕ, ◌<◌, ◌≡◌, ◌⊎◌, inl, inr, Bool, true, List, [], ◌∷◌, arith, All, Bool-cases,
}
use eth_project.Consumer.Table.{insert_rows}
use eth_project.Consumer.Table.Laws.{Stored, Stored-insert_rows, All-Stored-insert_rows}

pub record Ledger (A : Type 0) : Type 0 where
  pub table : List A
  pub batch : List A
  pub position : ℕ
  pub committed : ℕ

module _ {A : Type 0} (same : A → A → Bool) where
  -- A record of the journal is in the table or in the batch, and in the table if its offset is
  -- committed.
  abbrev pub Safe : Ledger A → ℕ × A → Type 0
  Safe l (o, x) =
      (o < l.position)
      × (Stored same l.table x ⊎ Stored same l.batch x)
      × (o < l.committed → Stored same l.table x)

  -- What one step may do to a ledger.
  pub data Moves (l m : Ledger A) : Type 0 where
    stay :
        m.table ≡ l.table
        → m.batch ≡ l.batch
        → m.position ≡ l.position
        → m.committed ≡ l.committed
        → Moves l m
    store :
        m.table ≡ insert_rows same l.batch l.table
        → m.batch ≡ l.batch
        → m.position ≡ l.position
        → m.committed ≡ l.committed
        → Moves l m
    settle :
        m.table ≡ insert_rows same l.batch l.table
        → m.batch ≡ []
        → m.position ≡ l.position
        → m.committed ≡ l.position
        → Moves l m

  module _ (same_refl : (x : A) → same x x ≡ true)
      (same_trans : (x y z : A) → same x y ≡ true → same y z ≡ true → same x z ≡ true) where
    Stored-same : (x y : A) (t : List A) → same x y ≡ true → Stored same t y → Stored same t x
    Stored-same x y (z ∷ t) h k = ground (arith, same_trans x y z h, Stored-same x y t h)
    Stored-same x y [] h k = k

    Stored-batch :
        (x : A) (xs t : List A) → Stored same xs x → All (Stored same t) xs → Stored same t x
    Stored-batch x (y ∷ xs) t h k = elim (Bool-cases (same x y)) [
      | inl here ↦ Stored-same x y t here k.0
      | inr there ↦ Stored-batch x xs t (rw there at h) k.1
    ]
    Stored-batch x [] t h k = cc

    Stored-insert_batch :
        (x : A) (xs t : List A)
        → Stored same t x ⊎ Stored same xs x
        → Stored same (insert_rows same xs t) x
    Stored-insert_batch x xs t (inl h) = Stored-insert_rows same xs t x h
    Stored-insert_batch x xs t (inr h) =
        Stored-batch x xs (insert_rows same xs t) h (All-Stored-insert_rows same same_refl xs t)

    -- A step keeps the journal safe.
    pub Moves-Safe : {l m : Ledger A} → Moves l m → (e : ℕ × A) → Safe l e → Safe m e
    Moves-Safe {l} {m} (stay t b p c) (o, x) s =
        (rw p s.0, rw (t, b) s.1, λ h. rw t (s.2 (rw c at h)))
    Moves-Safe {l} {m} (store t b p c) (o, x) s =
        let stored = Stored-insert_batch x l.batch l.table s.1 in
        (rw p s.0, inl (rw t stored), λ _. rw t stored)
    Moves-Safe {l} {m} (settle t b p c) (o, x) s =
        let stored = Stored-insert_batch x l.batch l.table s.1 in
        (rw p s.0, inl (rw t stored), λ _. rw t stored)
