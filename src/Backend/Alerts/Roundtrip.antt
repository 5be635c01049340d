-- ===== src/Backend/Alerts/Roundtrip.antt =====
-- An alert from the consumer's `build_whale_alert_payload` to the backend's `decode_whale_alert`.
use eth_project.Prelude.{◌≡◌, refl, String, Option, none, some}
use eth_project.Json.{Json, null, int, str, obj, Fields, end, field, get_field}
use eth_project.Consumer.Producer.{Payload}
use eth_project.Backend.Alerts.{Decoder, decode_whale_alert}

abbrev pub optional_text : Option String → Json
optional_text none = null
optional_text (some s) = str s

-- The dictionary that the consumer hands to `json.dumps`, with the float of value / 10 ** 18.
unfoldable pub alert_fields : Payload → Json → Fields
alert_fields p eth = field "hash" (str p.hash) (
    field "timestamp" (str p.timestamp) (
      field "from_address" (str p.from_address) (
        field "to_address" (optional_text p.to_address)
          (field "value" (int p.value) (field "value_eth" eth end)))))

-- A text that is decoded to an alert of the consumer is passed on as that alert: the value in ether
-- that the consumer computed is kept, whatever the backend computes.
pub decode_alert :
    (d : Decoder) (p : Payload) (eth other : Json) (raw : String)
    → d.loads raw ≡ some (obj (alert_fields p eth))
    → d.to_eth (int p.value) ≡ some other
    → decode_whale_alert d (some raw) ≡ some (obj (alert_fields p eth))
unfolding decode_whale_alert alert_fields get_field
decode_alert d p eth other raw h k = rw h (rw k refl)
