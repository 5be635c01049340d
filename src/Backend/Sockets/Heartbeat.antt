-- ===== src/Backend/Sockets/Heartbeat.antt =====
-- The heartbeats of the interleavings of `ConnectionManager`: the guard of `connect` on `_ping_task`.
use eth_project.Prelude.{
  ℕ, zero, suc, ◌+◌, ◌≤◌, ◌≡◌, refl, inl, inr, Bool, true, false, List, [], ◌∷◌, any_of, arith,
  Bool-cases, if◌then◌else◌,
}
use eth_project.Backend.Sockets.{
  Socket, Manager, admitted, register, broadcast, end_heartbeat, stop_ping_loop, no_heartbeat,
}
use eth_project.Backend.Sockets.Broadcast.{has}
use eth_project.Backend.Sockets.Events.{
  Server, Event, arrive, accepted, accept_failed, leave, alert, heartbeat, heartbeat_ended, stopped,
  step, run, disconnect-Shrunk, gather-Shrunk, ping_turn-Shrunk,
}

-- How many of the loops run.
abbrev pub running : List Bool → ℕ
running [] = 0
running (runs ∷ older) = (if runs then 1 else 0) + running older

-- Only the last loop can run.
abbrev IsLast : List Bool → Type 0
IsLast [] = Unit
IsLast (runs ∷ older) = running older ≡ 0

running-end_heartbeat :
    (n : ℕ) (tasks : List Bool) → running (end_heartbeat n tasks) ≤ running tasks
unfolding end_heartbeat
running-end_heartbeat n [] = omega arith
running-end_heartbeat zero (runs ∷ older) = ground arith
running-end_heartbeat (suc n) (runs ∷ older) = ground (arith, running-end_heartbeat n older)

end_heartbeat-IsLast : (n : ℕ) (tasks : List Bool) → IsLast tasks → IsLast (end_heartbeat n tasks)
unfolding end_heartbeat
end_heartbeat-IsLast n [] h = tt
end_heartbeat-IsLast zero (runs ∷ older) h = h
end_heartbeat-IsLast (suc n) (runs ∷ older) h = omega (arith, h, running-end_heartbeat n older)

register-IsLast :
    (ws : Socket) (m : Manager) → IsLast m.heartbeats → IsLast (register ws m).heartbeats
unfolding register no_heartbeat
register-IsLast ws m h = start m.heartbeats h
  where
    start :
        (tasks : List Bool)
        → IsLast tasks
        → IsLast (if no_heartbeat tasks then true ∷ tasks else tasks)
    start [] l = refl
    start (true ∷ older) l = l
    start (false ∷ older) l = omega (arith, l)

running-register :
    (ws : Socket) (m : Manager) → IsLast m.heartbeats → running (register ws m).heartbeats ≡ 1
unfolding register no_heartbeat
running-register ws m h = start m.heartbeats h
  where
    start :
        (tasks : List Bool)
        → IsLast tasks
        → running (if no_heartbeat tasks then true ∷ tasks else tasks) ≡ 1
    start [] l = refl
    start (true ∷ older) l = omega (arith, l)
    start (false ∷ older) l = omega (arith, l)

running_bound : (tasks : List Bool) → IsLast tasks → running tasks ≤ 1
running_bound [] h = omega arith
running_bound (runs ∷ older) h = ground (arith, h)

step-IsLast :
    (e : Event) (s : Server) → IsLast s.manager.heartbeats → IsLast (step e s).manager.heartbeats
unfolding step broadcast stop_ping_loop
step-IsLast (arrive ws) s h = elim (Bool-cases (admitted s.manager)) [
  | inl open_ ↦ rw open_ h
  | inr full ↦ rw full h
]
step-IsLast (accepted ws) s h = elim (Bool-cases (has ws s.accepting)) [
  | inl waits ↦ rw waits (register-IsLast ws s.manager h)
  | inr gone ↦ rw gone h
]
step-IsLast (accept_failed ws) s h = h
step-IsLast (leave ws) s h = rw (disconnect-Shrunk ws s.manager).heartbeats h
step-IsLast (alert returns message) s h =
    rw (gather-Shrunk returns message s.manager.active_connections s.manager).heartbeats h
step-IsLast (heartbeat returns) s h =
    elim (Bool-cases (any_of (λ runs. runs) (Manager.heartbeats s.manager))) [
      | inl runs ↦ rw runs (rw (ping_turn-Shrunk returns s.manager).heartbeats h)
      | inr none_ ↦ rw none_ h
    ]
step-IsLast (heartbeat_ended n) s h = end_heartbeat-IsLast n s.manager.heartbeats h
step-IsLast stopped s h = end_heartbeat-IsLast 0 s.manager.heartbeats h

run-IsLast :
    (es : List Event) (s : Server)
    → IsLast s.manager.heartbeats
    → IsLast (run es s).manager.heartbeats
unfolding run
run-IsLast [] s h = h
run-IsLast (e ∷ es) s h = run-IsLast es (step e s) (step-IsLast e s h)

-- From a server without a heartbeat, whatever events come, ends of heartbeats with them: at most one
-- heartbeat runs, and just one once a connection that waited for `accept` is registered.
pub run_heartbeats :
    (es : List Event) (s : Server)
    → s.manager.heartbeats ≡ []
    → (running (run es s).manager.heartbeats ≤ 1)
      × ((ws : Socket)
          → has ws (run es s).accepting ≡ true
          → running (step (accepted ws) (run es s)).manager.heartbeats ≡ 1)
unfolding step
run_heartbeats es s h =
    let last : IsLast (run es s).manager.heartbeats = run-IsLast es s (rw h tt) in
    (
      running_bound (run es s).manager.heartbeats last,
      λ ws waits. rw waits (running-register ws (run es s).manager last),
    )
