-- ===== src/Sessions/Transcript/Line.antt =====
-- An entry is written on one line (src/sessions/transcript.cpp).
use ghostclaw.Base.{
  ℕ, ◌≡◌, refl, ◌∙◌, Bool, true, false, List, [], ◌∷◌, ◌++◌, Option, none, some, arith,
  if◌then◌else◌, null, any-append, ◌==◌,
}
use ghostclaw.Base.Text.{Bytes, codes, has_byte, has_byte→Lacks, Lacks}
use ghostclaw.Common.Fs.{trim}
use ghostclaw.Common.Json.{escape_byte, json_escape}
use ghostclaw.Sessions.Transcript.{
  TranscriptEntry, InputProvenance, role_to_string, member, optional_member, provenance_text,
  members_text, metadata_text, behind_content, encode_transcript_entry_jsonl,
}

-- One line.
record IsLine (s : Bytes) : Type 0 where
  no_newline : has_byte b'\n' s ≡ false

plain : {s : Bytes} → has_byte b'\n' s ≡ false → IsLine s
plain h = record { no_newline = h }

IsLine-append : {a b : Bytes} → IsLine a → IsLine b → IsLine (a ++ b)
unfolding has_byte
IsLine-append {a} {b} ha hb =
    plain (any-append (λ c. c == b'\n') a b ∙ ground (arith, ha.no_newline, hb.no_newline))

escape_byte-IsLine : (c : ℕ) → IsLine (escape_byte c)
unfolding escape_byte has_byte
escape_byte-IsLine c = plain (ground arith)

json_escape-IsLine : (s : Bytes) → IsLine (json_escape s)
unfolding json_escape has_byte
json_escape-IsLine [] = plain refl
json_escape-IsLine (c ∷ s) = IsLine-append (escape_byte-IsLine c) (json_escape-IsLine s)

member-IsLine : (name value : Bytes) → IsLine name → IsLine (member name value)
unfolding has_byte
member-IsLine name value h =
    let closed = IsLine-append (json_escape-IsLine value) (plain {s = codes "\""} refl) in
    IsLine-append (plain {s = codes "\""} refl)
      (IsLine-append h (IsLine-append (plain {s = codes "\":\""} refl) closed))

optional-IsLine :
    (name : Bytes) (value : Option Bytes) → IsLine name → IsLine (optional_member name value)
unfolding has_byte
optional-IsLine name none h = plain refl
optional-IsLine name (some value) h =
    IsLine-append (plain {s = codes ","} refl) (member-IsLine name value h)

if-IsLine : (b : Bool) {x y : Bytes} → IsLine x → IsLine y → IsLine (if b then x else y)
if-IsLine true h k = h
if-IsLine false h k = k

provenance_text-IsLine : (p : Option InputProvenance) → IsLine (provenance_text p)
unfolding provenance_text has_byte
provenance_text-IsLine none = plain refl
provenance_text-IsLine (some p) =
    let message = optional-IsLine (codes "source_message_id") p.source_message_id (plain refl) in
    let tool = optional-IsLine (codes "source_tool") p.source_tool (plain refl) in
    let channel = optional-IsLine (codes "source_channel") p.source_channel (plain refl) in
    let session = optional-IsLine (codes "source_session_id") p.source_session_id (plain refl) in
    let kind = member-IsLine (codes "kind") p.kind (plain refl) in
    let end = IsLine-append message (plain {s = codes "}"} refl) in
    let all = IsLine-append session (IsLine-append channel (IsLine-append tool end)) in
    if-IsLine (null (trim p.kind)) (plain refl)
      (IsLine-append (plain {s = codes ",\"input_provenance\":{"} refl) (IsLine-append kind all))

members_text-IsLine : (first : Bool) (m : List (Bytes × Bytes)) → IsLine (members_text first m)
unfolding members_text has_byte
members_text-IsLine first [] = plain refl
members_text-IsLine first ((k, v) ∷ rest) =
    let comma = if-IsLine first (plain {s = []} refl) (plain {s = codes ","} refl) in
    let one = member-IsLine (json_escape k) v (json_escape-IsLine k) in
    IsLine-append comma (IsLine-append one (members_text-IsLine false rest))

metadata_text-IsLine : (m : List (Bytes × Bytes)) → IsLine (metadata_text m)
unfolding metadata_text has_byte
metadata_text-IsLine m =
    let closed = IsLine-append (members_text-IsLine true m) (plain {s = codes "}"} refl) in
    if-IsLine (null m) (plain refl)
      (IsLine-append (plain {s = codes ",\"metadata\":{"} refl) closed)

behind_content-IsLine : (e : TranscriptEntry) → IsLine (behind_content e)
unfolding behind_content has_byte
behind_content-IsLine e =
    let metadata = IsLine-append (metadata_text-IsLine e.metadata) (plain {s = codes "}"} refl) in
    let provenance = IsLine-append (provenance_text-IsLine e.input_provenance) metadata in
    let model = IsLine-append (optional-IsLine (codes "model") e.model (plain refl)) provenance in
    let timestamp = member-IsLine (codes "timestamp") e.timestamp (plain refl) in
    IsLine-append (plain {s = codes ","} refl) (IsLine-append timestamp model)

encode_transcript-IsLine : (e : TranscriptEntry) → IsLine (encode_transcript_entry_jsonl e)
unfolding encode_transcript_entry_jsonl has_byte
encode_transcript-IsLine e =
    let content =
      IsLine-append (json_escape-IsLine e.content)
        (IsLine-append (plain {s = codes "\""} refl) (behind_content-IsLine e)) in
    let role = json_escape-IsLine (role_to_string e.role) in
    IsLine-append (plain {s = codes "{\"role\":\""} refl)
      (IsLine-append role (IsLine-append (plain {s = codes "\",\"content\":\""} refl) content))

-- No line that is written for an entry holds a newline.
pub encode_transcript-Lacks : (e : TranscriptEntry) → Lacks b'\n' (encode_transcript_entry_jsonl e)
encode_transcript-Lacks e =
    has_byte→Lacks b'\n' (encode_transcript_entry_jsonl e) (encode_transcript-IsLine e).no_newline
