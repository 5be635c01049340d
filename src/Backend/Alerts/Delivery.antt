-- ===== src/Backend/Alerts/Delivery.antt =====
-- What the loop of `consume_whale_alerts` delivers.
use eth_project.Prelude.{
  ℕ, suc, ◌+◌, ◌≡◌, refl, ◌∙◌, ◌||◌, String, Bool, true, false, Option, none, some, List, [], ◌∷◌,
  ◌++◌, arith,
}
use eth_project.Json.{Json}
use eth_project.Backend.Sockets.{Manager, Socket, broadcast}
use eth_project.Backend.Alerts.{
  Decoder, decode_whale_alert, Turn, nothing, poll_error, message, cancelled, Listener,
  consume_whale_alerts, broadcast_payload,
}

-- The turns up to the first cancellation, and whether there is one.
pub before_cancel : List Turn → List Turn
before_cancel [] = []
before_cancel (nothing ∷ ts) = nothing ∷ before_cancel ts
before_cancel (poll_error ∷ ts) = poll_error ∷ before_cancel ts
before_cancel (message raw returns ∷ ts) = message raw returns ∷ before_cancel ts
before_cancel (cancelled ∷ ts) = []

pub has_cancel : List Turn → Bool
has_cancel [] = false
has_cancel (nothing ∷ ts) = has_cancel ts
has_cancel (poll_error ∷ ts) = has_cancel ts
has_cancel (message raw returns ∷ ts) = has_cancel ts
has_cancel (cancelled ∷ ts) = true

-- The texts that decode, with the sends that return.
pub alert_of : Decoder → Turn → List (Json × (Socket → Bool))
alert_of d (message raw returns) = elim (decode_whale_alert d raw) [
  | some payload ↦ (payload, returns) ∷ []
  | none ↦ []
]
alert_of d t = []

pub alerts : Decoder → List Turn → List (Json × (Socket → Bool))
unfolding alert_of
alerts d [] = []
alerts d (t ∷ ts) = alert_of d t ++ alerts d ts

pub broadcasts : List (Json × (Socket → Bool)) → Manager → Manager
broadcasts [] m = m
broadcasts ((payload, returns) ∷ rest) m = broadcasts rest (broadcast returns payload m)

pub errors : List Turn → ℕ
errors [] = 0
errors (poll_error ∷ ts) = suc (errors ts)
errors (nothing ∷ ts) = errors ts
errors (message raw returns ∷ ts) = errors ts
errors (cancelled ∷ ts) = errors ts

payload_frame :
    (p : Option Json) (returns : Socket → Bool) (s : Listener)
    → ((broadcast_payload p returns s).backoffs ≡ s.backoffs)
      × ((broadcast_payload p returns s).closed ≡ s.closed)
unfolding broadcast_payload
payload_frame none returns s = (refl, refl)
payload_frame (some payload) returns s = (refl, refl)

delivered :
    (d : Decoder) (raw : Option String) (returns : Socket → Bool) (ts : List Turn) (s : Listener)
    → broadcasts (alerts d ts) (broadcast_payload (decode_whale_alert d raw) returns s).manager
      ≡ broadcasts (alerts d (message raw returns ∷ ts)) s.manager
unfolding alerts alert_of broadcasts broadcast_payload
delivered d raw returns ts s = go (decode_whale_alert d raw)
  where
    go :
        (p : Option Json)
        → broadcasts (alerts d ts) (broadcast_payload p returns s).manager
          ≡ broadcasts
              ((elim p [ some payload ↦ (payload, returns) ∷ [] | none ↦ [] ]) ++ alerts d ts)
              s.manager
    go none = refl
    go (some payload) = refl

-- The loop broadcasts the alerts that decode, each once and in the order in which they were polled,
-- up to the first cancellation; a text that does not decode and an error of the broker stop nothing.
-- It waits once for each error, and the Kafka consumer is closed just when it is cancelled.
pub consume_delivers :
    (d : Decoder) (ts : List Turn) (s : Listener)
    → ((consume_whale_alerts d ts s).manager ≡ broadcasts (alerts d (before_cancel ts)) s.manager)
      × ((consume_whale_alerts d ts s).backoffs ≡ s.backoffs + errors (before_cancel ts))
      × ((consume_whale_alerts d ts s).closed ≡ (has_cancel ts || s.closed))
unfolding consume_whale_alerts before_cancel has_cancel alerts errors broadcasts alert_of
consume_delivers d [] s = (refl, omega arith, refl)
consume_delivers d (nothing ∷ ts) s = consume_delivers d ts s
consume_delivers d (poll_error ∷ ts) s =
    let (a, b, c) = consume_delivers d ts (record s { backoffs = suc s.backoffs }) in
    (a, omega (arith, b), c)
consume_delivers d (message raw returns ∷ ts) s =
    let (a, b, c) =
      consume_delivers d ts (broadcast_payload (decode_whale_alert d raw) returns s) in
    let (x, y) = payload_frame (decode_whale_alert d raw) returns s in
    (a ∙ delivered d raw returns (before_cancel ts) s, omega (arith, b, x), c ∙ rw y refl)
consume_delivers d (cancelled ∷ ts) s = (refl, omega arith, refl)
