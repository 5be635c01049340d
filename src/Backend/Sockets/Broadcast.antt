-- ===== src/Backend/Sockets/Broadcast.antt =====
-- A broadcast reaches each connection once and drops exactly those that it could not reach, in
-- whatever order the sends end.
use mathlib.Core.List.{append_assoc, append-nil}
use eth_project.Prelude.{
  ◌≡◌, refl, sym, ◌∙◌, inl, inr, Bool, true, false, not, ◌&&◌, ◌||◌, List, [], ◌∷◌, ◌++◌, map, ◌==◌,
  any_of, select, All, arith, Bool-cases,
}
use eth_project.Json.{Json}
use eth_project.Backend.Sockets.{Socket, Manager, remove, disconnect, send_to_connection, gather}

abbrev pub has : Socket → List Socket → Bool
has ws xs = any_of (λ y. y == ws) xs

-- No socket is registered twice.
abbrev pub Nodup : List Socket → Type 0
Nodup [] = Unit
Nodup (x ∷ xs) = (has x xs ≡ false) × Nodup xs

select_absent :
    (ws : Socket) (xs : List Socket) → has ws xs ≡ false → select (λ y. not (y == ws)) xs ≡ xs
select_absent ws [] h = refl
select_absent ws (x ∷ xs) h = ground (arith, select_absent ws xs)

same_socket : (x y : Socket) → x == y ≡ true → x ≡ y
same_socket x y h = ground arith

remove_lem :
    (ws : Socket) (xs : List Socket) → Nodup xs → remove ws xs ≡ select (λ y. not (y == ws)) xs
unfolding remove
remove_lem ws [] d = refl
remove_lem ws (x ∷ xs) d = elim (Bool-cases (x == ws)) [
  | inl same ↦ ground (arith, same, select_absent ws xs (rw (same_socket x ws same) at d.0))
  | inr other ↦ ground (arith, other, remove_lem ws xs d.1)
]

select_cong :
    (p q : Socket → Bool) (xs : List Socket)
    → ((y : Socket) → p y ≡ q y)
    → select p xs ≡ select q xs
select_cong p q [] h = refl
select_cong p q (x ∷ xs) h = ground (arith, h x, select_cong p q xs h)

select-select :
    (p q : Socket → Bool) (xs : List Socket) → select p (select q xs) ≡ select (λ y. q y && p y) xs
select-select p q [] = refl
select-select p q (x ∷ xs) = ground (arith, select-select p q xs)

has-select :
    (ws : Socket) (p : Socket → Bool) (xs : List Socket)
    → has ws xs ≡ false
    → has ws (select p xs) ≡ false
has-select ws p [] h = refl
has-select ws p (x ∷ xs) h = ground (arith, has-select ws p xs)

pub select-Nodup : (p : Socket → Bool) (xs : List Socket) → Nodup xs → Nodup (select p xs)
select-Nodup p [] d = tt
select-Nodup p (x ∷ xs) d = elim (Bool-cases (p x)) [
  | inl in_ ↦ rw in_ (has-select x p xs d.0, select-Nodup p xs d.1)
  | inr out ↦ rw out (select-Nodup p xs d.1)
]

pub disconnect_lem :
    (ws : Socket) (m : Manager)
    → Nodup m.active_connections
    → disconnect ws m
      ≡ record m { active_connections = select (λ y. not (y == ws)) m.active_connections }
unfolding disconnect
disconnect_lem ws m d = elim (Bool-cases (has ws m.active_connections)) [
  | inl here ↦ rw here (rw (remove_lem ws m.active_connections d) refl)
  | inr gone ↦ rw gone (rw (select_absent ws m.active_connections gone) refl)
]

-- Which connections are left when the sends of `order` have ended.
abbrev pub left : (Socket → Bool) → List Socket → Socket → Bool
left returns order y = returns y || not (has y order)

module _ (returns : Socket → Bool) (message : Json) where
  left_sent :
      (ws y : Socket) (order : List Socket)
      → returns ws ≡ true
      → left returns order y ≡ left returns (ws ∷ order) y
  left_sent ws y order h = ground (arith, same_socket ws y)

  left_dropped :
      (ws y : Socket) (order : List Socket)
      → returns ws ≡ false
      → (not (y == ws) && left returns order y) ≡ left returns (ws ∷ order) y
  left_dropped ws y order h = ground (arith, same_socket ws y)

  left_none : (xs : List Socket) → select (left returns []) xs ≡ xs
  left_none [] = refl
  left_none (x ∷ xs) = ground (arith, left_none xs)

  -- What the sends of `order` leave.
  pub record Gathered (order : List Socket) (m n : Manager) : Type 0 where
    pub active : n.active_connections ≡ select (left returns order) m.active_connections
    pub sent : n.sent ≡ m.sent ++ map (λ ws. (ws, message)) (select returns order)
    pub heartbeats : n.heartbeats ≡ m.heartbeats
    pub limit : n.max_connections ≡ m.max_connections

  after_sent :
      (ws : Socket) (order : List Socket) (m n : Manager)
      → returns ws ≡ true
      → Gathered order (record m { sent = m.sent ++ ((ws, message) ∷ []) }) n
      → Gathered (ws ∷ order) m n
  after_sent ws order m n ok g = record {
    active = g.active ∙ select_cong _ _ m.active_connections (λ y. left_sent ws y order ok);
    sent = rw ok (g.sent ∙ append_assoc m.sent _ _);
    heartbeats = g.heartbeats;
    limit = g.limit;
  }

  after_dropped :
      (ws : Socket) (order : List Socket) (m n : Manager)
      → returns ws ≡ false
      → Gathered order
          (record m { active_connections = select (λ y. not (y == ws)) m.active_connections })
          n
      → Gathered (ws ∷ order) m n
  after_dropped ws order m n failed g = record {
    active =
        g.active
        ∙ select-select (left returns order) _ m.active_connections
        ∙ select_cong _ _ m.active_connections (λ y. left_dropped ws y order failed);
    sent = rw failed g.sent;
    heartbeats = g.heartbeats;
    limit = g.limit;
  }

  pub gather_lem :
      (order : List Socket) (m : Manager)
      → Nodup m.active_connections
      → Gathered order m (gather returns message order m)
  unfolding gather send_to_connection
  gather_lem [] m d = record {
    active = sym (left_none m.active_connections);
    sent = sym (append-nil m.sent);
    heartbeats = refl;
    limit = refl;
  }
  gather_lem (ws ∷ order) m d = elim (Bool-cases (returns ws)) [
    | inl ok ↦ after_sent ws order m _ ok (rw ok (gather_lem order _ d))
    | inr failed ↦ after_dropped ws order m _ failed (
        rw (failed, disconnect_lem ws m d)
          (gather_lem order _ (select-Nodup (λ y. not (y == ws)) m.active_connections d)))
  ]

  select-left :
      (order xs : List Socket)
      → All (λ ws. has ws order ≡ true) xs
      → select (left returns order) xs ≡ select returns xs
  select-left order [] h = refl
  select-left order (x ∷ xs) h = ground (arith, h.0, select-left order xs h.1)

  -- In whatever order the sends end: when each connection's send has ended, exactly the connections
  -- whose send returned are left, in their order, and each send that returned went out once.
  pub broadcast_order :
      (order : List Socket) (m : Manager)
      → Nodup m.active_connections
      → All (λ ws. has ws order ≡ true) m.active_connections
      → ((gather returns message order m).active_connections ≡ select returns m.active_connections)
        × ((gather returns message order m).sent
            ≡ m.sent ++ map (λ ws. (ws, message)) (select returns order))
  broadcast_order order m d h =
      let g = gather_lem order m d in (g.active ∙ select-left order m.active_connections h, g.sent)
