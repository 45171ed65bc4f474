-- ===== src/Sessions/Transcript.antt =====
-- src/sessions/transcript.cpp: the line that stands for one entry of a session's transcript. The map of
-- metadata is the list of its entries in the order in which they are visited.
pub mod RoundTrip
pub mod Line
use ghostclaw.Base.{Bool, true, false, List, [], ◌∷◌, ◌++◌, Option, none, some, if◌then◌else◌, null}
use ghostclaw.Base.Text.{Bytes, codes, equal}
use ghostclaw.Common.{Result, ok, err}
use ghostclaw.Common.Fs.{trim, to_lower}
use ghostclaw.Common.Json.{json_escape, json_get_string, json_get_object}
use ghostclaw.Common.Json.Flat.{json_parse_flat}

pub data TranscriptRole : Type 0 where
  system user assistant tool : TranscriptRole

unfoldable pub role_to_string : TranscriptRole → Bytes
role_to_string system = codes "system"
role_to_string user = codes "user"
role_to_string assistant = codes "assistant"
role_to_string tool = codes "tool"

unfoldable pub role_from_string : Bytes → TranscriptRole
role_from_string value =
    let normalized = to_lower (trim value) in
    if equal normalized (codes "system")
    then system
    else if equal normalized (codes "assistant")
    then assistant
    else if equal normalized (codes "tool")
    then tool
    else user

pub record InputProvenance : Type 0 where
  pub kind : Bytes
  pub source_session_id : Option Bytes
  pub source_channel : Option Bytes
  pub source_tool : Option Bytes
  pub source_message_id : Option Bytes

pub record TranscriptEntry : Type 0 where
  pub role : TranscriptRole
  pub content : Bytes
  pub timestamp : Bytes
  pub model : Option Bytes
  pub input_provenance : Option InputProvenance
  pub metadata : List (Bytes × Bytes)

-- `"name":"value"`, the value escaped
abbrev pub member : Bytes → Bytes → Bytes
member name value = b'"' ∷ (name ++ (codes "\":\"" ++ (json_escape value ++ b'"' ∷ [])))

abbrev pub optional_member : Bytes → Option Bytes → Bytes
optional_member name none = []
optional_member name (some value) = b',' ∷ member name value

unfoldable pub provenance_text : Option InputProvenance → Bytes
provenance_text none = []
provenance_text (some p) =
    if null (trim p.kind)
    then []
    else codes ",\"input_provenance\":{"
      ++ (member (codes "kind") p.kind
          ++ (optional_member (codes "source_session_id") p.source_session_id
              ++ (optional_member (codes "source_channel") p.source_channel
                  ++ (optional_member (codes "source_tool") p.source_tool
                      ++ (optional_member (codes "source_message_id") p.source_message_id
                          ++ codes "}")))))

unfoldable pub members_text : Bool → List (Bytes × Bytes) → Bytes
unfolding json_escape
members_text first [] = []
members_text first ((k, v) ∷ rest) =
    (if first then [] else codes ",") ++ (member (json_escape k) v ++ members_text false rest)

unfoldable pub metadata_text : List (Bytes × Bytes) → Bytes
unfolding members_text
metadata_text metadata =
    if null metadata
    then []
    else codes ",\"metadata\":{" ++ (members_text true metadata ++ codes "}")

-- What follows the content and its quote.
unfoldable pub behind_content : TranscriptEntry → Bytes
unfolding provenance_text metadata_text
behind_content entry =
    b','
    ∷ (member (codes "timestamp") entry.timestamp
        ++ (optional_member (codes "model") entry.model
            ++ (provenance_text entry.input_provenance
                ++ (metadata_text entry.metadata ++ codes "}"))))

unfoldable pub encode_transcript_entry_jsonl : TranscriptEntry → Bytes
unfolding role_to_string behind_content
encode_transcript_entry_jsonl entry =
    b'{' ∷ (b'"' ∷ (codes "role" ++ b'"' ∷ []))
    ++ (b':'
        ∷ b'"'
        ∷ (json_escape (role_to_string entry.role)
            ++ (codes "\",\"content\":\""
                ++ (json_escape entry.content ++ (b'"' ∷ behind_content entry)))))

-- A field that is there and not empty.
abbrev pub optional_field : Bytes → Bytes → Option Bytes
optional_field line name =
    let value = json_get_string line name in if null value then none else some value

unfoldable pub parse_provenance : Bytes → Option InputProvenance
parse_provenance provenance =
    if null provenance
    then none
    else let kind = json_get_string provenance (codes "kind") in
      if null kind
      then none
      else some (record {
        kind = kind;
        source_session_id = optional_field provenance (codes "source_session_id");
        source_channel = optional_field provenance (codes "source_channel");
        source_tool = optional_field provenance (codes "source_tool");
        source_message_id = optional_field provenance (codes "source_message_id");
      })

unfoldable pub find_json_string_map_field : Bytes → Bytes → List (Bytes × Bytes)
unfolding json_parse_flat
find_json_string_map_field json field =
    let obj = json_get_object json field in if null obj then [] else json_parse_flat obj

-- The entry of a line whose role is there.
unfoldable pub read_entry : Bytes → TranscriptEntry
unfolding role_from_string parse_provenance find_json_string_map_field
read_entry line = record {
  role = role_from_string (json_get_string line (codes "role"));
  content = json_get_string line (codes "content");
  timestamp = json_get_string line (codes "timestamp");
  model = optional_field line (codes "model");
  input_provenance = parse_provenance (json_get_object line (codes "input_provenance"));
  metadata = find_json_string_map_field line (codes "metadata");
}

unfoldable pub parse_transcript_entry_jsonl : Bytes → Result TranscriptEntry
unfolding read_entry
parse_transcript_entry_jsonl line =
    if null (trim line)
    then err (codes "empty transcript line")
    else if null (json_get_string line (codes "role"))
    then err (codes "transcript role missing")
    else ok (read_entry line)
