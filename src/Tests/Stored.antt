-- ===== src/Tests/Stored.antt =====
-- Arrays of texts and the lines of sessions at concrete inputs.
use ghostclaw.Base.{◌≡◌, refl, true, List, [], ◌∷◌, ◌++◌}
use ghostclaw.Base.Text.{Bytes, codes, find, equal}
use ghostclaw.Common.Fs.{is_space}
use ghostclaw.Common.Json.{
  json_get_string, value_pos, json_find_key, is_at, json_skip_ws, json_find_string_end,
  string_end_loop, json_find_matching_token, number_end, json_unescape,
}
use ghostclaw.Common.Json.Field.{front}
use ghostclaw.Common.Json.Arrays.{json_get_string_array}
use ghostclaw.Common.Json.Arrays.RoundTrip.{items_text, json_get_string_array-items_text}
use ghostclaw.Sessions.State.{SessionState, encode_session_state_jsonl}
use ghostclaw.Common.Json.Flat.{json_parse_flat}

abbrev names : List Bytes
names = codes "a\"]" ∷ [] ∷ codes "b," ∷ []

json_get_string_array-items_text_example :
    json_get_string_array
      ((front (codes "xs") ++ b':' ∷ []) ++ (b'[' ∷ (items_text true names ++ (b']' ∷ codes "}"))))
      (codes "xs")
    ≡ names
json_get_string_array-items_text_example =
    json_get_string_array-items_text (codes "xs") names (codes "}")

-- Its id is the name of a later field.
abbrev named_model : SessionState
named_model = record {
  session_id = codes "model";
  agent_id = codes "helper";
  channel_id = [];
  peer_id = [];
  model = codes "m1";
  thinking_level = [];
  group_id = [];
  delivery_context = [];
  updated_at = [];
  subagents = codes "s" ∷ [];
}

-- The agent's name is read back as the model.
misread_model :
    json_get_string (encode_session_state_jsonl named_model) (codes "model") ≡ codes "helper"
unfolding json_get_string encode_session_state_jsonl value_pos json_find_key find is_at json_skip_ws
    is_space json_find_string_end json_unescape
misread_model = refl

flat_object :
    json_parse_flat (codes "{\"a\":\"x\\n\", \"b\":[1,2],\"c\":3,\"a\":true}")
    ≡ (codes "a", codes "true") ∷ (codes "b", codes "[1,2]") ∷ (codes "c", codes "3") ∷ []
unfolding json_parse_flat is_space string_end_loop json_find_matching_token is_at number_end equal
flat_object = refl
