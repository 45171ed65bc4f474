-- ===== src/Sessions/State.antt =====
-- src/sessions/session.cpp: the line that stands for the state of a session.
pub mod Identity
use ghostclaw.Base.{Bool, true, false, List, [], ◌∷◌, ◌++◌, if◌then◌else◌, null}
use ghostclaw.Base.Text.{Bytes, codes}
use ghostclaw.Common.{Result, ok, err}
use ghostclaw.Common.Fs.{trim}
use ghostclaw.Common.Json.{json_escape, json_get_string}
use ghostclaw.Common.Json.Arrays.{json_get_string_array}

pub record SessionState : Type 0 where
  pub session_id : Bytes
  pub agent_id : Bytes
  pub channel_id : Bytes
  pub peer_id : Bytes
  pub model : Bytes
  pub thinking_level : Bytes
  pub group_id : Bytes
  pub delivery_context : Bytes
  pub updated_at : Bytes
  pub subagents : List Bytes

-- `"name":"value",` and what follows it
abbrev pub text_entry : Bytes → Bytes → Bytes → Bytes
text_entry name value rest =
    (b'"' ∷ (name ++ b'"' ∷ [])) ++ (b':' ∷ (b'"' ∷ (json_escape value ++ (b'"' ∷ (b',' ∷ rest)))))

unfoldable pub subagents_text : Bool → List Bytes → Bytes → Bytes
unfolding json_escape
subagents_text first [] rest = rest
subagents_text first (subagent ∷ subagents) rest =
    (if first then [] else codes ",")
    ++ (b'"' ∷ (json_escape subagent ++ (b'"' ∷ subagents_text false subagents rest)))

unfoldable pub encode_session_state_jsonl : SessionState → Bytes
unfolding subagents_text
encode_session_state_jsonl state =
    b'{'
    ∷ text_entry (codes "session_id") state.session_id (
        text_entry (codes "agent_id") state.agent_id (
          text_entry (codes "channel_id") state.channel_id (
            text_entry (codes "peer_id") state.peer_id (
              text_entry (codes "model") state.model (
                text_entry (codes "thinking_level") state.thinking_level (
                  text_entry (codes "group_id") state.group_id (
                    text_entry (codes "delivery_context") state.delivery_context (
                      text_entry (codes "updated_at") state.updated_at (
                        codes "\"subagents\":["
                        ++ subagents_text true state.subagents (codes "]}"))))))))))

-- The fields of a line that is accepted.
unfoldable pub read_fields : Bytes → SessionState
read_fields line = record {
  session_id = json_get_string line (codes "session_id");
  agent_id = json_get_string line (codes "agent_id");
  channel_id = json_get_string line (codes "channel_id");
  peer_id = json_get_string line (codes "peer_id");
  model = json_get_string line (codes "model");
  thinking_level = json_get_string line (codes "thinking_level");
  group_id = json_get_string line (codes "group_id");
  delivery_context = json_get_string line (codes "delivery_context");
  updated_at = json_get_string line (codes "updated_at");
  subagents = json_get_string_array line (codes "subagents");
}

unfoldable pub parse_session_state_jsonl : Bytes → Result SessionState
unfolding read_fields
parse_session_state_jsonl line =
    if null (trim line)
    then err (codes "empty session state line")
    else if null (json_get_string line (codes "session_id"))
    then err (codes "session_id missing")
    else ok (read_fields line)
