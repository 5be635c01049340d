-- ===== src/Backend/Sockets/Events.antt =====
-- Interleavings of the coroutines of `ConnectionManager`: connections that wait for `accept`, that
-- are registered, that leave, broadcasts in between, and heartbeats that end.
use eth_project.Prelude.{
  ◌∙◌, ℕ, ◌+◌, ◌≤◌, ◌<◌, ◌≡◌, refl, inl, inr, Bool, true, false, List, [], ◌∷◌, ◌++◌, length,
  length-append, non_empty, any_of, arith, Bool-cases, if◌then◌else◌,
}
use eth_project.Json.{Json}
use eth_project.Backend.Sockets.{
  Socket, Manager, remove, admitted, register, disconnect, send_to_connection, gather, broadcast,
  ping_turn, ping_message, end_heartbeat, stop_ping_loop,
}
use eth_project.Backend.Sockets.Broadcast.{has}

-- The manager, the connections between the test of `connect` and the end of its `accept`, and those
-- that were turned away.
pub record Server : Type 0 where
  pub manager : Manager
  pub accepting : List Socket
  pub refused : List Socket

pub data Event : Type 0 where
  arrive : Socket → Event
  accepted : Socket → Event
  accept_failed : Socket → Event
  leave : Socket → Event
  alert : (Socket → Bool) → Json → Event
  heartbeat : (Socket → Bool) → Event
  heartbeat_ended : ℕ → Event
  stopped : Event

unfoldable pub step : Event → Server → Server
step (arrive ws) s =
    if admitted s.manager
    then record s { accepting = s.accepting ++ (ws ∷ []) }
    else record s { refused = s.refused ++ (ws ∷ []) }
step (accepted ws) s =
    if has ws s.accepting
    then record s { manager = register ws s.manager; accepting = remove ws s.accepting }
    else s
step (accept_failed ws) s = record s { accepting = remove ws s.accepting }
step (leave ws) s = record s { manager = disconnect ws s.manager }
step (alert returns message) s = record s { manager = broadcast returns message s.manager }
step (heartbeat returns) s =
    if any_of (λ runs. runs) (Manager.heartbeats s.manager)
    then record s { manager = ping_turn returns s.manager }
    else s
step (heartbeat_ended n) s = record s {
  manager = record s.manager { heartbeats = end_heartbeat n (Manager.heartbeats s.manager) };
}
step stopped s = record s { manager = stop_ping_loop s.manager }

unfoldable pub run : List Event → Server → Server
unfolding step
run [] s = s
run (e ∷ es) s = run es (step e s)

-- At no point of the run do more than `k` connections wait for `accept`.
unfoldable pub AtMost : ℕ → List Event → Server → Type 0
AtMost k [] s = Unit
AtMost k (e ∷ es) s = (length (step e s).accepting ≤ k) × AtMost k es (step e s)

length-remove-le : (ws : Socket) (xs : List Socket) → length (remove ws xs) ≤ length xs
unfolding remove
length-remove-le ws [] = omega arith
length-remove-le ws (x ∷ xs) = ground (arith, length-remove-le ws xs)

length-remove :
    (ws : Socket) (xs : List Socket) → has ws xs ≡ true → length (remove ws xs) + 1 ≡ length xs
unfolding remove
length-remove ws [] h = cc
length-remove ws (x ∷ xs) h = ground (arith, length-remove ws xs)

-- A manager that kept its limit and has no more connections than before.
pub record Shrunk (m n : Manager) : Type 0 where
  fewer : length n.active_connections ≤ length m.active_connections
  limit : n.max_connections ≡ m.max_connections
  pub heartbeats : n.heartbeats ≡ m.heartbeats

pub disconnect-Shrunk : (ws : Socket) (m : Manager) → Shrunk m (disconnect ws m)
unfolding disconnect
disconnect-Shrunk ws m = elim (Bool-cases (has ws m.active_connections)) [
  | inl here ↦
      rw here (record {
        fewer = length-remove-le ws m.active_connections;
        limit = refl;
        heartbeats = refl;
      })
  | inr gone ↦ rw gone (record { fewer = omega arith; limit = refl; heartbeats = refl })
]

Shrunk-trans : {m n o : Manager} → Shrunk m n → Shrunk n o → Shrunk m o
Shrunk-trans {m} {n} {o} a b = record {
  fewer = omega (arith, a.fewer, b.fewer);
  limit = omega (arith, a.limit, b.limit);
  heartbeats = b.heartbeats ∙ a.heartbeats;
}

pub gather-Shrunk :
    (returns : Socket → Bool) (message : Json) (order : List Socket) (m : Manager)
    → Shrunk m (gather returns message order m)
unfolding gather send_to_connection
gather-Shrunk returns message [] m = record { fewer = omega arith; limit = refl; heartbeats = refl }
gather-Shrunk returns message (ws ∷ order) m =
    Shrunk-trans (send-Shrunk (returns ws)) (gather-Shrunk returns message order _)
  where
    send-Shrunk : (b : Bool) → Shrunk m (send_to_connection b message ws m)
    send-Shrunk true = record { fewer = omega arith; limit = refl; heartbeats = refl }
    send-Shrunk false = disconnect-Shrunk ws m

pub ping_turn-Shrunk : (returns : Socket → Bool) (m : Manager) → Shrunk m (ping_turn returns m)
unfolding ping_turn broadcast
ping_turn-Shrunk returns m = elim (Bool-cases (non_empty m.active_connections)) [
  | inl busy ↦ rw busy (gather-Shrunk returns ping_message m.active_connections m)
  | inr idle ↦ rw idle (record { fewer = omega arith; limit = refl; heartbeats = refl })
]

-- With at most `k` connections waiting at once, the limit is exceeded by at most k - 1.
record Bounded (k : ℕ) (s : Server) : Type 0 where
  room : length s.manager.active_connections + length s.accepting < s.manager.max_connections + k

Shrunk-Bounded :
    (k : ℕ) (s : Server) (n : Manager)
    → Shrunk s.manager n
    → Bounded k s
    → Bounded k (record s { manager = n })
Shrunk-Bounded k s n h b = record { room = omega (arith, h.fewer, h.limit, b.room) }

admitted_room : (m : Manager) → admitted m ≡ true → length m.active_connections < m.max_connections
unfolding admitted
admitted_room m h = ground arith

arrived-Bounded :
    (k : ℕ) (ws : Socket) (s : Server)
    → admitted s.manager ≡ true
    → length (s.accepting ++ (ws ∷ [])) ≤ k
    → Bounded k (record s { accepting = s.accepting ++ (ws ∷ []) })
arrived-Bounded k ws s h l = record { room = omega (arith, l, admitted_room s.manager h) }

registered-Bounded :
    (k : ℕ) (ws : Socket) (s : Server)
    → has ws s.accepting ≡ true
    → Bounded k s
    → Bounded k (record s { manager = register ws s.manager; accepting = remove ws s.accepting })
unfolding register
registered-Bounded k ws s h b = record {
  room = omega (
    arith,
    b.room,
    length-append s.manager.active_connections (ws ∷ []),
    length-remove ws s.accepting h,
  );
}

step-Bounded :
    (k : ℕ) (e : Event) (s : Server)
    → length (step e s).accepting ≤ k
    → Bounded k s
    → Bounded k (step e s)
unfolding step broadcast stop_ping_loop
step-Bounded k (arrive ws) s h b = elim (Bool-cases (admitted s.manager)) [
  | inl open_ ↦ rw open_ (arrived-Bounded k ws s open_ (rw open_ at h))
  | inr full ↦ rw full (record { room = b.room })
]
step-Bounded k (accepted ws) s h b = elim (Bool-cases (has ws s.accepting)) [
  | inl waits ↦ rw waits (registered-Bounded k ws s waits b)
  | inr gone ↦ rw gone b
]
step-Bounded k (accept_failed ws) s h b = record {
  room = omega (arith, b.room, length-remove-le ws s.accepting);
}
step-Bounded k (leave ws) s h b = Shrunk-Bounded k s _ (disconnect-Shrunk ws s.manager) b
step-Bounded k (alert returns message) s h b =
    Shrunk-Bounded k s _ (gather-Shrunk returns message s.manager.active_connections s.manager) b
step-Bounded k (heartbeat returns) s h b =
    elim (Bool-cases (any_of (λ runs. runs) (Manager.heartbeats s.manager))) [
      | inl runs ↦ rw runs (Shrunk-Bounded k s _ (ping_turn-Shrunk returns s.manager) b)
      | inr none_ ↦ rw none_ b
    ]
step-Bounded k (heartbeat_ended n) s h b = record { room = b.room }
step-Bounded k stopped s h b = record { room = b.room }

run-Bounded :
    (k : ℕ) (es : List Event) (s : Server) → AtMost k es s → Bounded k s → Bounded k (run es s)
unfolding run AtMost
run-Bounded k [] s h b = b
run-Bounded k (e ∷ es) s h b = run-Bounded k es (step e s) h.1 (step-Bounded k e s h.0 b)

step_limit :
    (e : Event) (s : Server) → (step e s).manager.max_connections ≡ s.manager.max_connections
unfolding step register broadcast stop_ping_loop
step_limit (arrive ws) s = ground arith
step_limit (accepted ws) s = ground arith
step_limit (accept_failed ws) s = refl
step_limit (leave ws) s = (disconnect-Shrunk ws s.manager).limit
step_limit (alert returns message) s =
    (gather-Shrunk returns message s.manager.active_connections s.manager).limit
step_limit (heartbeat returns) s =
    elim (Bool-cases (any_of (λ runs. runs) (Manager.heartbeats s.manager))) [
      | inl runs ↦ rw runs ((ping_turn-Shrunk returns s.manager).limit)
      | inr none_ ↦ rw none_ refl
    ]
step_limit (heartbeat_ended n) s = refl
step_limit stopped s = refl

run_limit :
    (es : List Event) (s : Server) → (run es s).manager.max_connections ≡ s.manager.max_connections
unfolding run
run_limit [] s = refl
run_limit (e ∷ es) s = run_limit es (step e s) ∙ step_limit e s

-- If never more than `k` connections wait for `accept` at once, and none at the start, then a server
-- that starts empty never holds more than the limit and k - 1 connections: with one at a time, never
-- more than the limit.
pub run_bound :
    (k : ℕ) (es : List Event) (s : Server)
    → s.manager.active_connections ≡ []
    → s.accepting ≡ []
    → 0 < s.manager.max_connections + k
    → AtMost k es s
    → length (run es s).manager.active_connections < s.manager.max_connections + k
run_bound k es s a p z h =
    omega (arith, (run-Bounded k es s h (record { room = rw (a, p) z })).room, run_limit es s)
