-- ===== src/Gateway/Message/Json.antt =====
-- A message's first field is read back (src/gateway/protocol.cpp, src/common/json_util.cpp).
use ghostclaw.Base.{◌≡◌}
use ghostclaw.Base.Text.{codes}
use ghostclaw.Common.Json.{json_get_string}
use ghostclaw.Common.Json.Field.{json_get_string-json_escape}
use ghostclaw.Gateway.Message.{RpcResponse, WsServerMessage, response_to_json, message_to_json}

-- The receiver of a message reads its type, and the receiver of a response its id, as it was given,
-- whatever bytes these and the other fields hold.
pub json_get_string-to_json :
    (m : WsServerMessage) (r : RpcResponse)
    → (json_get_string (message_to_json m) (codes "type") ≡ m.type)
      × (json_get_string (response_to_json r) (codes "id") ≡ r.id)
unfolding message_to_json response_to_json
json_get_string-to_json m r = (
  json_get_string-json_escape (codes "type") m.type _,
  json_get_string-json_escape (codes "id") r.id _,
)
