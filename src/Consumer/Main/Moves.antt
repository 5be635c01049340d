-- ===== src/Consumer/Main/Moves.antt =====
-- What a flush does to the ledger of one kind of record, whatever fails in it.
use eth_project.Prelude.{ℕ, ◌+◌, refl, inl, inr, List, All, Bool-cases, leb, length}
use eth_project.Runtime.{Runtime}
use eth_project.Action.{Result, ok, raised}
use eth_project.Action.Outcomes.{After}
use eth_project.Consumer.State.{State}
use eth_project.Consumer.Flush.{FlushEnv, flush_batches}
use eth_project.Consumer.Flush.States.{Flushed, Kept}
use eth_project.Consumer.Flush.Outcome.{
  Failed, no_connection, kept, leaked, late, flush_batches_lem,
}
use eth_project.Consumer.Main.{flush_when_full}
use eth_project.Consumer.Main.Kind.{Kind}
use eth_project.Consumer.Main.Ledger.{Ledger, Safe, Moves, stay, store, settle}

module _ {A : Type 0} (kind : Kind A) where
  open kind use {same, same_refl, same_trans, table, batch, pick}

  abbrev pub ledger : State → Ledger A
  ledger s = record {
    table = table s.database;
    batch = batch s;
    position = s.position;
    committed = s.committed;
  }

  abbrev pub AllSafe : State → List (ℕ × A) → Type 0
  AllSafe s = All (Safe same (ledger s))

  module _ (rt : Runtime) (env : FlushEnv) (s : State) where
    Flushed-Moves : (n : ℕ) (t : State) → Flushed rt n s t → Moves same (ledger s) (ledger t)
    Flushed-Moves n t f =
        settle (rw f.database (kind.table-written s)) (kind.batch-Flushed rt n s t f) f.position
          f.committed

    Kept-Moves : (n : ℕ) (t : State) → Kept rt n s t → Moves same (ledger s) (ledger t)
    Kept-Moves n t k = elim k.database [
      | inl old ↦ stay (rw old) (kind.batch-Kept rt n s t k) k.position k.committed
      | inr new ↦
          store (rw new (kind.table-written s)) (kind.batch-Kept rt n s t k) k.position k.committed
    ]

    Failed-Moves : (t : State) → Failed rt env s t → Moves same (ledger s) (ledger t)
    Failed-Moves t (no_connection off e) = rw e (stay refl refl refl refl)
    Failed-Moves t (kept k) = Kept-Moves s.leased t k
    Failed-Moves t (leaked off k) = Kept-Moves (s.leased + 1) t k
    Failed-Moves t (late off f) = Flushed-Moves (s.leased + 1) t f

    pub flush-Moves : Moves same (ledger s) (ledger (flush_batches rt env s).1)
    flush-Moves =
        go (flush_batches rt env s).0 (flush_batches rt env s).1 (flush_batches_lem rt env s)
      where
        go :
            (r : Result (Unit {0})) (t : State)
            → After (λ _ u. Flushed rt s.leased s u) (λ _ u. Failed rt env s u) r t
            → Moves same (ledger s) (ledger t)
        go (ok a) t f = Flushed-Moves s.leased t f
        go (raised e) t f = Failed-Moves t f

    pub flush_when_full-Moves : Moves same (ledger s) (ledger (flush_when_full rt env s).1)
    unfolding flush_when_full
    flush_when_full-Moves = elim (Bool-cases (leb 100 (length s.tx_batch + length s.token_batch))) [
      | inl full ↦ rw full flush-Moves
      | inr room ↦ rw room (stay refl refl refl refl)
    ]
