-- ===== src/Backend/Alerts.antt =====
-- The whale alerts of backend/main.py: `decode_whale_alert` and the loop of `consume_whale_alerts`.
pub mod Roundtrip
pub mod Delivery
use eth_project.Prelude.{
  ℕ, suc, ◌+◌, String, Bool, true, false, Option, none, some, List, [], ◌∷◌, ℤ, pos,
}
use eth_project.Json.{Json, null, int, obj, Fields, end, field, get_field}
use eth_project.Backend.Sockets.{Manager, Socket, broadcast}

-- What the code takes from Python: `json.loads(raw.decode("utf-8"))`, and `float(v) / 10 ** 18` as
-- the number that it puts into the alert. `none` is an exception.
pub record Decoder : Type 0 where
  pub loads : String → Option Json
  pub to_eth : Json → Option Json

-- dict.setdefault: a new key comes last.
unfoldable pub setdefault : String → Json → Fields → Fields
setdefault k v fs = elim (get_field k fs) [ some w ↦ fs | none ↦ add fs ]
  where
    add : Fields → Fields
    add end = field k v end
    add (field j w rest) = field j w (add rest)

-- `data.get("value", 0)`
value_of : Option Json → Json
value_of none = int (pos 0)
value_of (some v) = v

with_eth : Fields → Option Json → Option Json
unfolding setdefault
with_eth fs none = none
with_eth fs (some eth) = some (obj (setdefault "value_eth" eth fs))

-- What is no dictionary has no `get`.
with_value : Decoder → Option Json → Option Json
unfolding value_of with_eth
with_value d (some (obj fs)) = with_eth fs (d.to_eth (value_of (get_field "value" fs)))
with_value d v = none

unfoldable pub decode_whale_alert : Decoder → Option String → Option Json
unfolding with_value
decode_whale_alert d none = none
decode_whale_alert d (some raw) = with_value d (d.loads raw)

-- One turn of the loop: what `poll` gives, and which sends of the broadcast return.
pub data Turn : Type 0 where
  nothing : Turn
  poll_error : Turn
  message : Option String → (Socket → Bool) → Turn
  cancelled : Turn

-- `backoffs` counts the waits of five seconds. `closed` is whether the Kafka consumer was closed.
pub record Listener : Type 0 where
  pub manager : Manager
  pub backoffs : ℕ
  pub closed : Bool

broadcast_payload : Option Json → (Socket → Bool) → Listener → Listener
broadcast_payload none returns s = s
broadcast_payload (some payload) returns s = record s {
  manager = broadcast returns payload s.manager;
}

-- `consume_whale_alerts`, over the turns that are observed: only a cancellation ends it.
unfoldable pub consume_whale_alerts : Decoder → List Turn → Listener → Listener
unfolding broadcast_payload
consume_whale_alerts d [] s = s
consume_whale_alerts d (nothing ∷ ts) s = consume_whale_alerts d ts s
consume_whale_alerts d (poll_error ∷ ts) s =
    consume_whale_alerts d ts (record s { backoffs = suc s.backoffs })
consume_whale_alerts d (message raw returns ∷ ts) s =
    consume_whale_alerts d ts (broadcast_payload (decode_whale_alert d raw) returns s)
consume_whale_alerts d (cancelled ∷ ts) s = record s { closed = true }
