-- ===== src/Consumer/Main/Received.antt =====
-- What the message of one turn becomes, by the first half of the loop alone.
use eth_project.Prelude.{String, ◌≡◌, refl, ◌⊎◌, inl, inr, false, Option, none, arith}
use eth_project.Json.{Json}
use eth_project.Runtime.{Runtime}
use eth_project.Action.{Result, ok, raised, kafka_exception}
use eth_project.Consumer.Poll.{poll, is_record, poll-event, poll_raises}
use eth_project.Consumer.State.{State}
use eth_project.Consumer.Main.{
  Iteration, Intake, ignored, receive, keep, taken, after_poll, polled_state, signalled, iterate,
}

of_poll : Runtime → Iteration → State → Result (Option String × Option Json) → Result Intake
of_poll rt it s (ok polled) = receive rt it s.redis polled
of_poll rt it s (raised e) = raised e

unfoldable pub received : Runtime → Iteration → State → Result Intake
unfolding of_poll
received rt it s = of_poll rt it s (poll rt it.message)

pub keep_frame :
    (rt : Runtime) (it : Iteration) (i : Intake) (s : State)
    → ((keep rt it i s).1.database ≡ s.database)
      × ((keep rt it i s).1.position ≡ s.position)
      × ((keep rt it i s).1.committed ≡ s.committed)
unfolding keep
keep_frame rt it i s = ground arith

of_poll-event :
    (rt : Runtime) (it : Iteration) (s : State) (r : Result (Option String × Option Json))
    → (r ≡ ok (none, none)) ⊎ (r ≡ raised kafka_exception)
    → (of_poll rt it s r ≡ ok ignored) ⊎ (of_poll rt it s r ≡ raised kafka_exception)
unfolding of_poll receive
of_poll-event rt it s r (inl e) = inl (rw e)
of_poll-event rt it s r (inr e) = inr (rw e)

-- An event about the partition, or nothing, is ignored or raises.
pub received-event :
    (rt : Runtime) (it : Iteration) (s : State)
    → is_record it.message ≡ false
    → (received rt it s ≡ ok ignored) ⊎ (received rt it s ≡ raised kafka_exception)
unfolding received
received-event rt it s h = of_poll-event rt it s (poll rt it.message) (poll-event rt it.message h)

redis-signalled : (it : Iteration) (s : State) → (signalled it s).redis ≡ s.redis
unfolding signalled
redis-signalled it s = ground arith

-- The rest of a turn depends on the poll only by what is received.
pub iterate-received :
    (rt : Runtime) (it : Iteration) (s : State)
    → iterate rt it s ≡ taken rt it (received rt it s) (polled_state it (signalled it s))
unfolding iterate received
iterate-received rt it s = go (poll rt it.message) refl
  where
    go :
        (r : Result (Option String × Option Json))
        → poll rt it.message ≡ r
        → after_poll rt it r (polled_state it (signalled it s))
          ≡ taken rt it (of_poll rt it s r) (polled_state it (signalled it s))
    go (ok p) e = rw (redis-signalled it s)
    go (raised x) e = rw (poll_raises rt it.message x e).3
