-- ===== src/Consumer/Main/NoLoss.antt =====
-- The loop of the consumer loses no record that it accepted, whatever fails in its turns.
use mathlib.Core.List.{append_assoc, append-nil}
use eth_project.Prelude.{
  ℕ, ◌<◌, ◌≡◌, refl, sym, ◌⊎◌, Bool, true, false, List, [], ◌∷◌, ◌++◌, map, arith, All, All-map,
}
use eth_project.Runtime.{Runtime}
use eth_project.Action.{Exception, Result, ok, raised, continue, ◌>>=◌, Action}
use eth_project.Consumer.Table.Laws.{Stored}
use eth_project.Consumer.State.{State}
use eth_project.Consumer.Main.{
  Iteration, Intake, keep, flush_when_full, taken, polled_state, signalled, iterate, main_loop,
  while,
}
use eth_project.Consumer.Main.Kind.{Kind}
use eth_project.Consumer.Main.Ledger.{Safe}
use eth_project.Consumer.Main.Moves.{ledger, flush_when_full-Moves}
use eth_project.Consumer.Main.Received.{received, iterate-received}
use eth_project.Consumer.Main.Durable.{
  accepted, after_turn, unless_stopped, journal, IsSound, Moves-IsSound, polled, kept,
  received-IsSound, polled-IsSound,
}

module _ {A : Type 0} (kind : Kind A) (rt : Runtime) where
  open kind use {same, table, batch}

  module _ (it : Iteration) (s : State) (j : List (ℕ × A)) where
    full-IsSound :
        (t : State) (k : List (ℕ × A))
        → IsSound kind t k
        → IsSound kind (flush_when_full rt it.flush t).1 k
    full-IsSound t k = Moves-IsSound kind t _ k (flush_when_full-Moves kind rt it.flush t)

    keep_then :
        (i : Intake) (r : Result (Unit {0})) (t : State) (k : List (ℕ × A))
        → (keep rt it i t).0 ≡ r
        → IsSound kind (keep rt it i t).1 k
        → IsSound kind (taken rt it (ok i) t).1 k
    unfolding taken
    keep_then i (ok a) t k e h = rw e (full-IsSound (keep rt it i t).1 k h)
    keep_then i (raised x) t k e h = rw e h

    pub raise_keeps : (x : Exception) (t : State) → (taken rt it (raised x) t).1 ≡ t
    unfolding taken
    raise_keeps x t = ground arith

    turn-IsSound :
        IsSound kind s j
        → IsSound kind
            (iterate rt it s).1
            (j ++ map (λ x. (s.position, x)) (accepted kind (received rt it s)))
    unfolding polled kept
    turn-IsSound h = rw (iterate-received rt it s) (go (received rt it s) refl)
      where
        go :
            (r : Result Intake)
            → received rt it s ≡ r
            → IsSound kind
                (taken rt it r (polled_state it (signalled it s))).1
                (j ++ map (λ x. (s.position, x)) (accepted kind r))
        go (ok i) e =
            keep_then i _ (polled_state it (signalled it s)) _ refl
              (received-IsSound kind rt it s i j e h)
        go (raised x) e =
            rw (raise_keeps x (polled_state it (signalled it s)), append-nil j)
              (polled-IsSound kind rt it s j h)

  rest-IsSound :
      (its : List Iteration)
      → ((t : State) (k : List (ℕ × A))
          → IsSound kind t k
          → IsSound kind (main_loop rt its t).1 (k ++ journal kind rt its t))
      → (r : Result (Unit {0})) (t : State) (j k : List (ℕ × A)) → IsSound kind t (j ++ k)
      → IsSound kind
          (continue r (λ _. main_loop rt its) t).1
          (j ++ (k ++ after_turn kind r (journal kind rt its t)))
  rest-IsSound its rest (ok a) t j k h =
      rw (sym (append_assoc j k (journal kind rt its t))) (rest t (j ++ k) h)
  rest-IsSound its rest (raised x) t j k h = rw (append-nil k) h

  stop-IsSound :
      (b : Bool) (m : Action State (Unit {0})) (s : State) (j k : List (ℕ × A))
      → IsSound kind s j
      → IsSound kind (m s).1 (j ++ k)
      → IsSound kind (while b m s).1 (j ++ unless_stopped kind b k)
  stop-IsSound true m s j k h e = e
  stop-IsSound false m s j k h e = rw (append-nil j) h

  pub loop-IsSound :
      (its : List Iteration) (s : State) (j : List (ℕ × A))
      → IsSound kind s j
      → IsSound kind (main_loop rt its s).1 (j ++ journal kind rt its s)
  unfolding main_loop journal
  loop-IsSound [] s j h = rw (append-nil j) h
  loop-IsSound (it ∷ its) s j h =
      stop-IsSound s.running (◌>>=◌ (iterate rt it) (λ _. main_loop rt its)) s j _ h (
        rest-IsSound its (loop-IsSound its) (iterate rt it s).0 (iterate rt it s).1 j _
          (turn-IsSound it s j h))

module _ {A : Type 0} (kind : Kind A) where
  open kind use {same, table, batch}

  -- Each record of the journal is in the table or in the batch, and in the table if the offset of its
  -- message is committed.
  pub AllKept : State → List (ℕ × A) → Type 0
  AllKept s j =
      All
        (λ e.
          (Stored same (table s.database) e.1 ⊎ Stored same (batch s) e.1)
          × (e.0 < s.committed → Stored same (table s.database) e.1))
        j

  pub AllKept-sound : (s : State) (j : List (ℕ × A)) → IsSound kind s j → AllKept s j
  unfolding AllKept
  AllKept-sound s j h = All-map (Safe same (ledger kind s)) _ j (λ e k. (k.1, k.2)) h.safe
