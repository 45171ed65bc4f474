-- ===== src/Tests/Kept.antt =====
-- The session store at concrete inputs.
use ghostclaw.Base.{◌≡◌, refl, true, List, [], ◌∷◌, Option, none}
use ghostclaw.Base.Text.{Bytes, codes, equal, find}
use ghostclaw.Common.{Result, ok, err}
use ghostclaw.Common.Fs.{is_space, starts_with}
use ghostclaw.Common.Json.{
  json_get_string, value_pos, json_find_key, is_at, json_skip_ws, json_find_string_end,
  json_unescape,
}
use ghostclaw.Security.ToolPolicy.Names.{lookup}
use ghostclaw.Sessions.Key.{parse_session_key, make_session_key, is_valid_component}
use ghostclaw.Sessions.State.{SessionState}
use ghostclaw.Sessions.Transcript.{
  TranscriptEntry, assistant, encode_transcript_entry_jsonl, parse_transcript_entry_jsonl,
}
use ghostclaw.Sessions.Transcript.RoundTrip.{parse_transcript-encode}
use ghostclaw.Sessions.Store.{
  SessionStore, open_store, blank_state, normalize_state, get_state, sanitize_session_filename,
}
use ghostclaw.Sessions.Store.Keyed.{AreKeyed}
use ghostclaw.Sessions.Store.Runs.{Calls, register, group, append, run, run-open_store}
use ghostclaw.Sessions.Store.Operations.{register_subagent}
use ghostclaw.Sessions.Store.Transcripts.{Append, written}
use ghostclaw.Sessions.Store.Normal.{normalize_state_idem}
use ghostclaw.Sessions.Store.Raw.{raw_key, register_again-raw}

-- Its content ends in what looks like the name of a field.
abbrev quoting : TranscriptEntry
quoting = record {
  role = assistant;
  content = codes "say \"model";
  timestamp = codes "10:00";
  model = none;
  input_provenance = none;
  metadata = [];
}

parse_transcript-encode_example :
    (out : TranscriptEntry) × (parse_transcript_entry_jsonl (encode_transcript_entry_jsonl quoting)
      ≡ ok out)
    × (out.role ≡ assistant)
    × (out.content ≡ codes "say \"model")
parse_transcript-encode_example = parse_transcript-encode quoting

-- The time is read back as the model that the entry does not have.
misread_model :
    json_get_string (encode_transcript_entry_jsonl quoting) (codes "model") ≡ codes "10:00"
unfolding json_get_string encode_transcript_entry_jsonl value_pos json_find_key find is_at
    json_skip_ws is_space json_find_string_end json_unescape
misread_model = refl

abbrev done : Result (Unit {0})
done = ok tt

abbrev no_transcripts : Bytes → Option Bytes
no_transcripts _ = none

abbrev empty_store : SessionStore
empty_store = record { states = []; index = none; transcripts = no_transcripts }

abbrev unsorted : List SessionState → List SessionState
unsorted states = states

abbrev calls : Calls
calls =
    (register (codes "chat") (codes "helper"), (codes "1", done))
    ∷ (append done (codes "chat") quoting, (codes "2", err (codes "disk full")))
    ∷ (group (codes "chat") (codes "g"), (codes "3", done))
    ∷ []

run-open_store_example : AreKeyed (run unsorted calls (open_store none no_transcripts)).states
run-open_store_example = run-open_store unsorted calls none no_transcripts

-- Two sessions whose names differ in one byte that is no letter.
abbrev two_sessions : List Append
two_sessions =
    record {
      session_id = codes "a.b";
      now = codes "1";
      entry = quoting;
      opened = done;
      replaced = done;
    }
    ∷ record {
      session_id = codes "a:b";
      now = codes "2";
      entry = quoting;
      opened = done;
      replaced = done;
    }
    ∷ []

both_written :
    written (sanitize_session_filename (codes "a.b")) two_sessions ≡ quoting ∷ quoting ∷ []
unfolding sanitize_session_filename equal
both_written = refl

abbrev normal_chat : SessionState
normal_chat = record (blank_state (codes "agent:ghostclaw:channel:unknown:peer:chat")) {
  agent_id = codes "ghostclaw";
  channel_id = codes "unknown";
  peer_id = codes "chat";
  updated_at = codes "1";
  thinking_level = codes "standard";
  delivery_context = codes "default";
}

chat_normal : normalize_state (codes "1") (blank_state (codes "chat")) ≡ ok normal_chat
unfolding normalize_state parse_session_key make_session_key is_valid_component starts_with
chat_normal = refl

normalize_state_idem_example : normalize_state (codes "2") normal_chat ≡ ok normal_chat
normalize_state_idem_example =
    normalize_state_idem (blank_state (codes "chat")) normal_chat (codes "1") (codes "2")
      chat_normal refl

valid_chat : is_valid_component (codes "chat") ≡ true
unfolding is_valid_component
valid_chat = refl

register_again-raw_example :
    (out : SessionState) × (get_state
        (register_subagent unsorted
          (codes "2")
          done
          (codes "chat")
          (codes "second")
          (register_subagent unsorted
            (codes "1")
            done
            (codes "chat")
            (codes "first")
            empty_store).1).1
        (raw_key (codes "chat"))
      ≡ ok out)
    × (out.subagents ≡ codes "second" ∷ [])
    × (get_state
          (register_subagent unsorted
            (codes "2")
            done
            (codes "chat")
            (codes "second")
            (register_subagent unsorted
              (codes "1")
              done
              (codes "chat")
              (codes "first")
              empty_store).1).1
          (codes "chat")
        ≡ err (codes "session not found"))
unfolding lookup
register_again-raw_example =
    register_again-raw (codes "chat") valid_chat unsorted done (codes "first") (codes "second")
      (codes "1") (codes "2") empty_store refl refl refl
