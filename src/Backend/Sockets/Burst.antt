-- ===== src/Backend/Sockets/Burst.antt =====
-- Connections that arrive while others wait for `accept` are all tested against the same count.
use eth_project.Prelude.{◌≡◌, refl, sym, ap, ◌∙◌, true, List, [], ◌∷◌, ◌++◌, map, arith}
use mathlib.Core.List.{append_assoc, append-nil}
use eth_project.Backend.Sockets.{Socket, remove, admitted, register}
use eth_project.Backend.Sockets.Broadcast.{has}
use eth_project.Backend.Sockets.Events.{Server, Event, arrive, accepted, step, run}

run-append : (es fs : List Event) (s : Server) → run (es ++ fs) s ≡ run fs (run es s)
unfolding run
run-append [] fs s = refl
run-append (e ∷ es) fs s = run-append es fs (step e s)

step_arrive :
    (w : Socket) (s : Server)
    → admitted s.manager ≡ true
    → step (arrive w) s ≡ record s { accepting = s.accepting ++ (w ∷ []) }
unfolding step
step_arrive w s h = rw h refl

run_arrivals :
    (ws : List Socket) (s : Server)
    → admitted s.manager ≡ true
    → run (map arrive ws) s ≡ record s { accepting = s.accepting ++ ws }
unfolding run
run_arrivals [] s h = rw (append-nil s.accepting) refl
run_arrivals (w ∷ ws) s h =
    ap (run (map arrive ws)) (step_arrive w s h)
    ∙ run_arrivals ws (record s { accepting = s.accepting ++ (w ∷ []) }) h
    ∙ rw (append_assoc s.accepting (w ∷ []) ws) refl

first_of : (w : Socket) (ws : List Socket) → remove w (w ∷ ws) ≡ ws
unfolding remove
first_of w ws = ground arith

has_first : (w : Socket) (ws : List Socket) → has w (w ∷ ws) ≡ true
has_first w ws = ground arith

step_first :
    (w : Socket) (ws : List Socket) (s : Server)
    → s.accepting ≡ w ∷ ws
    → step (accepted w) s ≡ record s { manager = register w s.manager; accepting = ws }
unfolding step
step_first w ws s h = rw (h, has_first w ws, first_of w ws) refl

run_accepts :
    (ws : List Socket) (s : Server)
    → s.accepting ≡ ws
    → (run (map accepted ws) s).manager.active_connections ≡ s.manager.active_connections ++ ws
unfolding run register
run_accepts [] s h = sym (append-nil s.manager.active_connections)
run_accepts (w ∷ ws) s h =
    ap (λ t. (run (map accepted ws) t).manager.active_connections) (step_first w ws s h)
    ∙ run_accepts ws _ refl
    ∙ append_assoc s.manager.active_connections (w ∷ []) ws

-- Where one connection has room, any number of them that arrive before the first `accept` ends are
-- all registered, however small the limit is.
pub connect_burst :
    (ws : List Socket) (s : Server)
    → s.accepting ≡ []
    → admitted s.manager ≡ true
    → (run (map arrive ws ++ map accepted ws) s).manager.active_connections
      ≡ s.manager.active_connections ++ ws
connect_burst ws s h a =
    ap (λ t. t.manager.active_connections)
      (run-append (map arrive ws) (map accepted ws) s
        ∙ ap (run (map accepted ws)) (run_arrivals ws s a))
    ∙ run_accepts ws _ (rw h refl)
