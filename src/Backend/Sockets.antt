-- ===== src/Backend/Sockets.antt =====
-- `ConnectionManager` of backend/core/ws_manager.py. Its coroutines give way at each `await`, so
-- `connect` is two events: the test of the limit, and what follows the `await` of `accept`.
pub mod Broadcast
pub mod Events
pub mod Burst
pub mod Heartbeat
use eth_project.Prelude.{
  ℕ, zero, suc, ◌+◌, Bool, true, false, not, ◌&&◌, ◌||◌, Option, none, some, List, [], ◌∷◌, ◌++◌,
  map, length, leb, ltb, ◌==◌, non_empty, any_of, if◌then◌else◌,
}
use eth_project.Json.{Json, str, obj, field, end}

-- A websocket, by its identity.
abbrev pub Socket : Type 0
Socket = ℕ

-- `heartbeats` are the tasks of `_ping_loop` that were created, the last one first, which is
-- `_ping_task`; each is true while it runs. `sent` are the messages that went out.
pub record Manager : Type 0 where
  pub active_connections : List Socket
  pub max_connections : ℕ
  pub heartbeats : List Bool
  pub sent : List (Socket × Json)

-- `list.remove`: the first occurrence.
unfoldable pub remove : Socket → List Socket → List Socket
remove x [] = []
remove x (y ∷ ys) = let rest = remove x ys in if y == x then ys else y ∷ rest

-- The test at the start of `connect`: true where the socket goes on to `accept`.
unfoldable pub admitted : Manager → Bool
admitted m = not (leb m.max_connections (length m.active_connections))

-- `self._ping_task is None or self._ping_task.done()`.
unfoldable pub no_heartbeat : List Bool → Bool
no_heartbeat [] = true
no_heartbeat (runs ∷ older) = not runs

-- The rest of `connect`, after `accept`.
unfoldable pub register : Socket → Manager → Manager
unfolding no_heartbeat
register ws m = record m {
  active_connections = m.active_connections ++ (ws ∷ []);
  heartbeats = if no_heartbeat m.heartbeats then true ∷ m.heartbeats else m.heartbeats;
}

-- `connect` where nothing runs between its test and its end.
unfoldable pub connect : Socket → Manager → Option Manager
unfolding admitted register
connect ws m = if admitted m then some (register ws m) else none

unfoldable pub disconnect : Socket → Manager → Manager
unfolding remove
disconnect ws m =
    if any_of (λ y. y == ws) m.active_connections
    then record m { active_connections = remove ws m.active_connections }
    else m

-- `_send_to_connection`, by whether `send_json` returns.
unfoldable pub send_to_connection : Bool → Json → Socket → Manager → Manager
unfolding disconnect
send_to_connection true message ws m = record m { sent = m.sent ++ ((ws, message) ∷ []) }
send_to_connection false message ws m = disconnect ws m

-- The tasks of one `broadcast`, in the order in which their sends end.
unfoldable pub gather : (Socket → Bool) → Json → List Socket → Manager → Manager
unfolding send_to_connection
gather returns message [] m = m
gather returns message (ws ∷ order) m =
    gather returns message order (send_to_connection (returns ws) message ws m)

-- `broadcast` where the sends end in the order of the connections.
unfoldable pub broadcast : (Socket → Bool) → Json → Manager → Manager
unfolding gather
broadcast returns message m = gather returns message m.active_connections m

abbrev pub ping_message : Json
ping_message = obj (field "type" (str "ping") end)

-- One turn of `_ping_loop`, after its sleep.
unfoldable pub ping_turn : (Socket → Bool) → Manager → Manager
unfolding broadcast
ping_turn returns m = if non_empty m.active_connections then broadcast returns ping_message m else m

-- The task of the loop that is the n-th from the last ends, by an exception.
unfoldable pub end_heartbeat : ℕ → List Bool → List Bool
end_heartbeat n [] = []
end_heartbeat n (runs ∷ older) = elim n [
  | zero ↦ false ∷ older
  | suc k ↦ runs ∷ end_heartbeat k older
]

unfoldable pub stop_ping_loop : Manager → Manager
unfolding end_heartbeat
stop_ping_loop m = record m { heartbeats = end_heartbeat 0 m.heartbeats }
