-- ===== src/Consumer/Main/Durable.antt =====
-- No accepted record is lost: whatever fails, one whose offset was committed to Kafka is stored.
use eth_project.Prelude.{
  ℕ, suc, ◌≤◌, ◌<◌, ◌≡◌, refl, sym, ◌∙◌, ap, inl, inr, Bool, true, false, List, [], ◌∷◌, ◌++◌, map,
  arith, All, All-append, All-map, Bool-cases, if◌then◌else◌, any_of-append,
}
use eth_project.Runtime.{Runtime}
use eth_project.Action.{Result, ok, raised}
use eth_project.Consumer.Table.Laws.{Stored, Stored-append}
use eth_project.Consumer.Poll.{is_record}
use eth_project.Consumer.State.{State}
use eth_project.Consumer.Main.{Iteration, Intake, keep, polled_state, signalled, iterate}
use eth_project.Consumer.Main.Kind.{Kind}
use eth_project.Consumer.Main.Ledger.{Ledger, Safe, Moves, stay, store, settle, Moves-Safe}
use eth_project.Consumer.Main.Moves.{ledger, AllSafe}
use eth_project.Consumer.Main.Received.{received, keep_frame, received-event}

-- One more message was polled.
pub polled_frame :
    (it : Iteration) (s : State)
    → ((polled_state it (signalled it s)).database ≡ s.database)
      × ((polled_state it (signalled it s)).position
          ≡ (if is_record it.message then suc s.position else s.position))
      × ((polled_state it (signalled it s)).committed ≡ s.committed)
unfolding polled_state signalled
polled_frame it s = ground arith

module _ {A : Type 0} (kind : Kind A) where
  open kind use {same, same_refl, same_trans, table, batch, pick}

  -- The records of the kind that a received message adds.
  abbrev pub accepted : Result Intake → List A
  accepted (ok i) = pick i
  accepted (raised e) = []

  abbrev pub after_turn : Result (Unit {0}) → List (ℕ × A) → List (ℕ × A)
  after_turn (ok a) rest = rest
  after_turn (raised e) rest = []

  abbrev pub unless_stopped : Bool → List (ℕ × A) → List (ℕ × A)
  unless_stopped true j = j
  unless_stopped false j = []

  -- What the loop accepts, turn by turn, each record with the offset of its message.
  unfoldable pub journal : Runtime → List Iteration → State → List (ℕ × A)
  journal rt [] s = []
  journal rt (it ∷ its) s = unless_stopped s.running (
      map (λ x. (s.position, x)) (accepted (received rt it s))
      ++ after_turn (iterate rt it s).0 (journal rt its (iterate rt it s).1))

  pub record IsSound (s : State) (j : List (ℕ × A)) : Type 0 where
    pub behind : s.committed ≤ s.position
    pub safe : AllSafe kind s j

  Moves-behind :
      (s t : State)
      → Moves same (ledger kind s) (ledger kind t)
      → s.committed ≤ s.position
      → t.committed ≤ t.position
  Moves-behind s t (stay a b p c) h = omega arith
  Moves-behind s t (store a b p c) h = omega arith
  Moves-behind s t (settle a b p c) h = omega arith

  pub Moves-IsSound :
      (s t : State) (j : List (ℕ × A))
      → Moves same (ledger kind s) (ledger kind t)
      → IsSound s j
      → IsSound t j
  Moves-IsSound s t j m h = record {
    behind = Moves-behind s t m h.behind;
    safe =
        All-map (Safe same (ledger kind s)) (Safe same (ledger kind t)) j
          (λ e. Moves-Safe same same_refl same_trans m e) h.safe;
  }

  All-Stored_self : (xs : List A) → All (Stored same xs) xs
  All-Stored_self [] = tt
  All-Stored_self (x ∷ xs) = (
    ground (arith, same_refl x),
    All-map (Stored same xs) (Stored same (x ∷ xs)) xs (λ y h. ground (arith, h))
        (All-Stored_self xs),
  )

  Stored-prepend : (t u : List A) (x : A) → Stored same u x → Stored same (t ++ u) x
  Stored-prepend t u x h = rw any_of-append (ground (arith, h))

  All-Stored-prepend : (t u xs : List A) → All (Stored same u) xs → All (Stored same (t ++ u)) xs
  All-Stored-prepend t u xs = All-map (Stored same u) (Stored same (t ++ u)) xs (Stored-prepend t u)

  -- Records that are in the batch, at an offset that is not committed.
  All-fresh :
      (l : Ledger A) (o : ℕ)
      → o < l.position
      → (o < l.committed → ⊥)
      → (xs : List A) → All (Stored same l.batch) xs
      → All (Safe same l) (map (λ x. (o, x)) xs)
  All-fresh l o p c [] h = tt
  All-fresh l o p c (x ∷ xs) h = ((p, inr h.0, λ q. absurd (c q)), All-fresh l o p c xs h.1)

  module _ (rt : Runtime) (it : Iteration) (s : State) where
    unfoldable pub polled : State
    polled = polled_state it (signalled it s)

    unfoldable pub kept : Intake → State
    unfolding polled
    kept i = (keep rt it i polled).1

    position_grows : s.position ≤ (if is_record it.message then suc s.position else s.position)
    position_grows = ground arith

    pub polled-IsSound : (j : List (ℕ × A)) → IsSound s j → IsSound polled j
    unfolding polled
    polled-IsSound j h =
        let (d, p, c) = polled_frame it s in
        record {
          behind = omega (arith, p, c, position_grows, h.behind);
          safe =
              All-map (Safe same (ledger kind s)) (Safe same (ledger kind polled)) j
                (λ e k. (
                  omega (arith, p, position_grows, k.0),
                  rw (kind.batch-polled it s, d) k.1,
                  λ l. rw d (k.2 (omega (arith, c, l))),
                ))
                h.safe;
        }

    kept_frame :
        (i : Intake)
        → (table (kept i).database ≡ table s.database)
          × (batch (kept i) ≡ batch s ++ pick i)
          × ((kept i).position ≡ (if is_record it.message then suc s.position else s.position))
          × ((kept i).committed ≡ s.committed)
    unfolding kept polled
    kept_frame i =
        let (a, b, c) = keep_frame rt it i (polled_state it (signalled it s)) in
        let (x, y, z) = polled_frame it s in
        (
          rw a (rw x refl),
          rw (kind.batch-keep rt it i (polled_state it (signalled it s)), kind.batch-polled it s)
              refl,
          rw b y,
          rw c z,
        )

    old-Safe :
        (i : Intake) (e : ℕ × A) → Safe same (ledger kind s) e → Safe same (ledger kind (kept i)) e
    old-Safe i (o, x) h =
        let (d, b, p, c) = kept_frame i in
        (
          omega (arith, p, position_grows, h.0),
          elim h.1 [
            | inl stored ↦ inl (rw d stored)
            | inr held ↦ inr (rw b (Stored-append same (batch s) (pick i) x held))
          ],
          λ l. rw d (h.2 (omega (arith, c, l))),
        )

    record_position :
        is_record it.message ≡ true
        → (if is_record it.message then suc s.position else s.position) ≡ suc s.position
    record_position is = rw is refl

    event_nothing :
        (i : Intake) → received rt it s ≡ ok i → is_record it.message ≡ false → pick i ≡ []
    event_nothing i e event = elim (received-event rt it s event) [
      | inl r ↦ ap accepted (sym e ∙ r) ∙ kind.pick-ignored
      | inr r ↦ cc
    ]

    new-Safe :
        (i : Intake)
        → received rt it s ≡ ok i
        → s.committed ≤ s.position
        → AllSafe kind (kept i) (map (λ x. (s.position, x)) (pick i))
    new-Safe i e h =
        let (d, b, p, c) = kept_frame i in
        elim (Bool-cases (is_record it.message)) [
          | inl is ↦
              All-fresh (ledger kind (kept i)) s.position (omega (arith, p, record_position is))
                (λ l. absurd (omega (arith, l, c, h))) (pick i)
                (rw b (All-Stored-prepend (batch s) (pick i) (pick i) (All-Stored_self (pick i))))
          | inr event ↦ rw (event_nothing i e event) tt
        ]

    pub received-IsSound :
        (i : Intake) (j : List (ℕ × A))
        → received rt it s ≡ ok i
        → IsSound s j
        → IsSound (kept i) (j ++ map (λ x. (s.position, x)) (pick i))
    received-IsSound i j e h =
        let (d, b, p, c) = kept_frame i in
        record {
          behind = omega (arith, p, c, position_grows, h.behind);
          safe =
              All-append (Safe same (ledger kind (kept i))) j _
                (All-map (Safe same (ledger kind s)) (Safe same (ledger kind (kept i))) j
                  (old-Safe i) h.safe)
                (new-Safe i e h.behind);
        }
