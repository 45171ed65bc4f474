-- ===== src/Sessions/Store.antt =====
-- src/sessions/store.cpp: the states of the sessions, their index file, and the transcripts. A file is
-- `none` where it does not exist, and a file's write is whole or does not happen. `now` is the
-- timestamp that an operation takes, `sort` is std::sort by the time of the update, and the results
-- of opening and replacing files are arguments. The operations that change the store stand in
-- Store/Operations.
pub mod Operations
pub mod Keyed
pub mod Normal
pub mod Raw
pub mod Runs
pub mod Transcripts
use ghostclaw.Base.{
  ℕ, ◌-◌, Bool, true, false, ◌&&◌, ◌||◌, not, List, [], ◌∷◌, ◌++◌, Option, none, some, leb, ltb,
  ◌==◌, if◌then◌else◌, null, length, drop, keep, map,
}
use ghostclaw.Base.Lines.{unlines}
use ghostclaw.Base.Text.{Bytes, codes, equal, mem, lines}
use ghostclaw.Common.{Result, ok, err, guard, ◌>>◌, ◌>>=◌}
use ghostclaw.Common.Fs.{trim}
use ghostclaw.Security.ToolPolicy.Names.{lookup}
use ghostclaw.Sessions.Key.{SessionKeyParts, make_session_key, parse_session_key}
use ghostclaw.Sessions.State.{SessionState, encode_session_state_jsonl, parse_session_state_jsonl}
use ghostclaw.Sessions.Transcript.{
  TranscriptEntry, encode_transcript_entry_jsonl, parse_transcript_entry_jsonl,
}

-- The map of states, as the list of its entries.
abbrev pub States : Type 0
States = List (Bytes × SessionState)

pub record SessionStore : Type 0 where
  pub states : States
  pub index : Option Bytes
  pub transcripts : Bytes → Option Bytes

unfoldable pub sanitize_byte : ℕ → ℕ
sanitize_byte ch =
    if (leb b'a' ch && leb ch b'z')
      || ((leb b'A' ch && leb ch b'Z')
          || ((leb b'0' ch && leb ch b'9') || (ch == b'-' || ch == b'_')))
    then ch
    else b'_'

unfoldable pub sanitize_session_filename : Bytes → Bytes
unfolding sanitize_byte
sanitize_session_filename session_id =
    let out = map sanitize_byte session_id in if null out then codes "default" else out

-- `states_[key] = state`
unfoldable pub put : Bytes → SessionState → States → States
put key state [] = (key, state) ∷ []
put key state ((k, old) ∷ rest) =
    if equal k key then (k, state) ∷ rest else (k, old) ∷ put key state rest

-- A state, where there is one, is stored under its id.
abbrev pub store_result : Result SessionState → States → States
store_result (err _) states = states
store_result (ok state) states = put state.session_id state states

unfoldable pub index_loop : List Bytes → States → States
unfolding put
index_loop [] states = states
index_loop (line ∷ rest) states =
    index_loop rest (store_result (parse_session_state_jsonl line) states)

unfoldable pub load_state_index : Option Bytes → States
unfolding index_loop
load_state_index none = []
load_state_index (some text) = index_loop (lines [] text) []

-- A store at its start, over the files that are there.
unfoldable pub open_store : Option Bytes → (Bytes → Option Bytes) → SessionStore
unfolding load_state_index
open_store index transcripts = record {
  states = load_state_index index;
  index = index;
  transcripts = transcripts;
}

abbrev pub or_else : Bytes → Bytes → Bytes
or_else value default = if null value then default else value

-- What is filled in where the session's id is a key.
abbrev pub fill_parts : SessionKeyParts → SessionState → SessionState
fill_parts parts state = record state {
  agent_id = or_else state.agent_id parts.agent_id;
  channel_id = or_else state.channel_id parts.channel_id;
  peer_id = or_else state.peer_id parts.peer_id;
}

abbrev pub raw_parts : SessionState → SessionKeyParts
raw_parts state = record {
  agent_id = or_else state.agent_id (codes "ghostclaw");
  channel_id = or_else state.channel_id (codes "unknown");
  peer_id = or_else state.peer_id state.session_id;
}

-- Where it is not, a key is made of the parts.
abbrev pub fill_key : SessionState → Result Bytes → Result SessionState
fill_key state (err _) = err (codes "invalid session state")
fill_key state (ok key) = ok (record (fill_parts (raw_parts state) state) { session_id = key })

abbrev pub fill_id : SessionState → Result SessionKeyParts → Result SessionState
fill_id state (ok parts) = ok (fill_parts parts state)
fill_id state (err _) = fill_key state (make_session_key (raw_parts state))

abbrev pub fill_defaults : Bytes → SessionState → SessionState
fill_defaults now state = record state {
  updated_at = or_else state.updated_at now;
  thinking_level = or_else state.thinking_level (codes "standard");
  delivery_context = or_else state.delivery_context (codes "default");
}

unfoldable pub normalize_state : Bytes → SessionState → Result SessionState
normalize_state now state = do
  guard (not (null state.session_id)) (codes "session_id is required")
  keyed ← fill_id state (parse_session_key state.session_id)
  ok (fill_defaults now keyed)

abbrev pub kept : Bytes → Bytes → Bytes → Bytes
kept given merged existing = if null given then existing else merged

-- What is empty in `state` stays as it is in the state that is there.
unfoldable pub merge : SessionState → SessionState → Option SessionState → SessionState
merge state merged none = merged
merge state merged (some existing) = record merged {
  agent_id = kept state.agent_id merged.agent_id existing.agent_id;
  channel_id = kept state.channel_id merged.channel_id existing.channel_id;
  peer_id = kept state.peer_id merged.peer_id existing.peer_id;
  model = kept state.model merged.model existing.model;
  thinking_level = kept state.thinking_level merged.thinking_level existing.thinking_level;
  group_id = kept state.group_id merged.group_id existing.group_id;
  delivery_context = kept state.delivery_context merged.delivery_context existing.delivery_context;
  subagents = if null state.subagents then existing.subagents else merged.subagents;
}

abbrev pub touched : Bytes → SessionState → SessionState → SessionState
touched now state merged =
    if null state.updated_at then record merged { updated_at = now } else merged

abbrev pub blank_state : Bytes → SessionState
blank_state session_id = record {
  session_id = session_id;
  agent_id = [];
  channel_id = [];
  peer_id = [];
  model = [];
  thinking_level = [];
  group_id = [];
  delivery_context = [];
  updated_at = [];
  subagents = [];
}

unfoldable pub get_state : SessionStore → Bytes → Result SessionState
unfolding lookup
get_state s session_id = elim (lookup session_id s.states) [
  | none ↦ err (codes "session not found")
  | some state ↦ ok state
]

-- The entry of an id: the state that is there, or a new one, whose key replaces what it finds.
abbrev pub found_entry :
    Bytes → Result SessionState → Option SessionState → Result (Bytes × SessionState)
found_entry session_id new (some state) = ok (session_id, state)
found_entry session_id (ok state) none = ok (state.session_id, state)
found_entry session_id (err e) none = err e

unfoldable pub entry_of : Bytes → Bytes → States → Result (Bytes × SessionState)
unfolding lookup normalize_state
entry_of now session_id states =
    found_entry session_id (normalize_state now (blank_state session_id)) (lookup session_id states)

abbrev pub add_subagent : Bytes → Bytes → SessionState → SessionState
add_subagent now subagent_id state =
    if mem subagent_id state.subagents
    then state
    else record state { subagents = state.subagents ++ subagent_id ∷ []; updated_at = now }

abbrev pub drop_subagent : Bytes → Bytes → SessionState → SessionState
drop_subagent now subagent_id state = record state {
  subagents = keep (λ k. not (equal k subagent_id)) state.subagents;
  updated_at = now;
}

abbrev pub touch_found : Bytes → Bytes → Result SessionState → Option SessionState → States → States
touch_found timestamp session_id new (some state) states =
    put session_id (record state { updated_at = timestamp }) states
touch_found timestamp session_id new none states = store_result new states

-- What the transcript does to the state of its session.
unfoldable pub touch_session : Bytes → Bytes → States → States
unfolding normalize_state put lookup
touch_session timestamp session_id states =
    let fresh = record (blank_state session_id) { updated_at = timestamp } in
    touch_found timestamp session_id (normalize_state timestamp fresh) (lookup session_id states)
      states

abbrev pub append_text : Option Bytes → Bytes → Bytes
append_text none text = text
append_text (some before) text = before ++ text

-- A line that does not parse is left out.
abbrev pub add_parsed : Result TranscriptEntry → List TranscriptEntry → List TranscriptEntry
add_parsed (err _) rest = rest
add_parsed (ok entry) rest = entry ∷ rest

unfoldable pub parsed_entries : List Bytes → List TranscriptEntry
parsed_entries [] = []
parsed_entries (line ∷ rest) = add_parsed (parse_transcript_entry_jsonl line) (parsed_entries rest)

abbrev pub last_entries : ℕ → List TranscriptEntry → List TranscriptEntry
last_entries limit entries =
    if ltb 0 limit && ltb limit (length entries)
    then drop (length entries - limit) entries
    else entries

abbrev pub file_entries : ℕ → Option Bytes → List TranscriptEntry
file_entries limit none = []
file_entries limit (some text) = last_entries limit (parsed_entries (lines [] text))

unfoldable pub load_transcript : SessionStore → Bytes → ℕ → Result (List TranscriptEntry)
unfolding parsed_entries
load_transcript s session_id limit =
    if null session_id
    then err (codes "session_id is required")
    else ok (file_entries limit (s.transcripts (sanitize_session_filename session_id)))
