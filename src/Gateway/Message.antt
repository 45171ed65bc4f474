-- ===== src/Gateway/Message.antt =====
-- The messages of src/gateway/protocol.cpp. A map is the list of its entries in the order in which
-- the program goes over them.
pub mod Json
use ghostclaw.Base.{
  Bool, true, false, ◌&&◌, not, List, [], ◌∷◌, ◌++◌, Option, none, some, if◌then◌else◌, null,
}
use ghostclaw.Base.Text.{Bytes, codes, equal}
use ghostclaw.Common.{Result, ok, err}
use ghostclaw.Common.Json.{json_escape, json_get_string, json_get_number}
use ghostclaw.Common.Json.Flat.{set_entry}

abbrev pub RpcMap : Type 0
RpcMap = List (Bytes × Bytes)

pub record RpcResponse : Type 0 where
  pub id : Bytes
  pub result : RpcMap
  pub error : Option Bytes

pub record WsClientMessage : Type 0 where
  pub id : Bytes
  pub type : Bytes
  pub method : Bytes
  pub session : Bytes
  pub payload : RpcMap

pub record WsServerMessage : Type 0 where
  pub type : Bytes
  pub id : Bytes
  pub session : Bytes
  pub payload : RpcMap
  pub error : Option Bytes

-- A text between quotes, and the name of a field with its colon.
abbrev pub quote : Bytes → Bytes → Bytes
quote value rest = b'"' ∷ (json_escape value ++ (b'"' ∷ rest))

abbrev pub field_name : Bytes → Bytes → Bytes
field_name name rest = (b'"' ∷ (name ++ b'"' ∷ [])) ++ (b':' ∷ rest)

unfoldable pub entries_json : Bool → RpcMap → Bytes → Bytes
unfolding json_escape
entries_json first [] rest = rest
entries_json first ((k, v) ∷ m) rest =
    (if first then [] else codes ",") ++ quote k (b':' ∷ quote v (entries_json false m rest))

unfoldable pub to_json_object : RpcMap → Bytes → Bytes
unfolding entries_json
to_json_object m rest = b'{' ∷ entries_json true m (b'}' ∷ rest)

unfoldable pub response_to_json : RpcResponse → Bytes
unfolding to_json_object
response_to_json r =
    b'{'
    ∷ field_name (codes "id") (
        quote r.id (
          b',' ∷ elim r.error [
            | some error ↦ field_name (codes "error") (quote error (codes "}"))
            | none ↦ field_name (codes "result") (to_json_object r.result (codes "}"))
          ]))

-- A field that stands behind another one, and is left out where its text is empty.
unfoldable pub optional_field : Bytes → Bytes → Bytes → Bytes
optional_field name value rest =
    if null value then rest else b',' ∷ field_name name (quote value rest)

unfoldable pub error_field : Option Bytes → Bytes → Bytes
error_field none rest = rest
error_field (some error) rest = b',' ∷ field_name (codes "error") (quote error rest)

unfoldable pub payload_field : RpcMap → Bytes → Bytes
unfolding to_json_object
payload_field payload rest =
    if null payload then rest else b',' ∷ field_name (codes "payload") (to_json_object payload rest)

unfoldable pub message_to_json : WsServerMessage → Bytes
unfolding optional_field error_field payload_field
message_to_json m =
    b'{'
    ∷ field_name (codes "type") (
        quote m.type (
          optional_field (codes "id") m.id (
            optional_field (codes "session") m.session
              (error_field m.error (payload_field m.payload (codes "}"))))))

-- `if (!value.empty()) message.payload[key] = value;`
unfoldable pub put_field : Bytes → Bytes → RpcMap → RpcMap
unfolding set_entry
put_field key value m = if null value then m else set_entry key value m

-- The field of the envelope is called `field`, the entry of the payload `key`.
abbrev text_field : Bytes → Bytes → Bytes → RpcMap → RpcMap
text_field json field key m = put_field key (json_get_string json field) m

abbrev same_field : Bytes → Bytes → RpcMap → RpcMap
same_field json key m = text_field json key key m

-- A text, or else a number.
abbrev number_field : Bytes → Bytes → RpcMap → RpcMap
number_field json key m =
    let value = json_get_string json key in
    put_field key (if null value then json_get_number json key else value) m

unfoldable pub texts_of : Bytes → List Bytes → RpcMap → RpcMap
unfolding put_field
texts_of json [] m = m
texts_of json (key ∷ keys) m = texts_of json keys (same_field json key m)

abbrev text_fields : List Bytes
text_fields =
    codes "event"
    ∷ codes "text"
    ∷ codes "token"
    ∷ codes "message"
    ∷ codes "model"
    ∷ codes "channel"
    ∷ codes "thinking_level"
    ∷ codes "delivery_context"
    ∷ codes "group_id"
    ∷ codes "peer_id"
    ∷ codes "input_provenance_kind"
    ∷ codes "input_provenance_source_session_id"
    ∷ codes "input_provenance_source_channel"
    ∷ codes "input_provenance_source_tool"
    ∷ codes "input_provenance_source_message_id"
    ∷ []

unfoldable pub payload_of : Bytes → Bytes → RpcMap
unfolding texts_of put_field
payload_of json session =
    let texts = texts_of json text_fields [] in
    let warm = number_field json (codes "temperature") texts in
    let keyed = same_field json (codes "key") warm in
    let limited = number_field json (codes "limit") keyed in
    put_field (codes "session_id") session limited

unfoldable pub parse_ws_client_message : Bytes → Result WsClientMessage
unfolding payload_of
parse_ws_client_message json =
    let id = json_get_string json (codes "id") in
    let type = json_get_string json (codes "type") in
    let method = json_get_string json (codes "method") in
    let own = json_get_string json (codes "session") in
    let session = (if null own then json_get_string json (codes "session_id") else own) in
    if null type && null method
    then err (codes "missing type field")
    else ok (record {
      id = id;
      type = if null type then codes "rpc" else type;
      method = method;
      session = session;
      payload = payload_of json session;
    })
