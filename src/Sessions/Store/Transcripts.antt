-- ===== src/Sessions/Store/Transcripts.antt =====
-- What is appended to a transcript is loaded (src/sessions/store.cpp).
use ghostclaw.Base.{
  ◌≡◌, Bool, false, List, [], ◌∷◌, ◌++◌, Option, none, some, if◌then◌else◌, null, map,
}
use ghostclaw.Base.Lines.{unlines}
use ghostclaw.Base.Text.{Bytes, equal}
use ghostclaw.Common.{Result, is_ok}
use ghostclaw.Sessions.State.{SessionState}
use ghostclaw.Sessions.Transcript.{TranscriptEntry, TranscriptRole, encode_transcript_entry_jsonl}
use ghostclaw.Sessions.Store.{SessionStore, sanitize_session_filename, or_else}
use ghostclaw.Sessions.Store.Operations.{append_transcript}

-- A call of append_transcript: its session, the time, the entry, and whether the transcript could be
-- opened and the index replaced.
pub record Append : Type 0 where
  pub session_id : Bytes
  pub now : Bytes
  pub entry : TranscriptEntry
  pub opened : Result (Unit {0})
  pub replaced : Result (Unit {0})

-- The entry as it is written.
abbrev pub stamped : Append → TranscriptEntry
stamped a = record a.entry { timestamp = or_else a.entry.timestamp a.now }

-- The call writes to this file.
abbrev pub writes_to : Bytes → Append → Bool
writes_to name a =
    if null a.session_id
    then false
    else if is_ok a.opened
    then equal name (sanitize_session_filename a.session_id)
    else false

-- The entries that a run of calls writes to a file.
abbrev pub written : Bytes → List Append → List TranscriptEntry
written name [] = []
written name (a ∷ rest) = (if writes_to name a then stamped a ∷ [] else []) ++ written name rest

-- What a reader of a transcript relies on.
abbrev pub view : TranscriptEntry → TranscriptRole × Bytes
view e = (e.role, e.content)

abbrev encoded : List TranscriptEntry → List Bytes
encoded es = map encode_transcript_entry_jsonl es

-- A file that is created by the first line.
abbrev file_of : List Bytes → Option Bytes
file_of [] = none
file_of (x ∷ xs) = some (unlines (x ∷ xs))

module _ (sort : List SessionState → List SessionState) where
  abbrev pub append_one : Append → SessionStore → SessionStore
  append_one a s = (append_transcript sort a.now a.replaced a.opened a.session_id a.entry s).1

  abbrev pub append_all : List Append → SessionStore → SessionStore
  append_all [] s = s
  append_all (a ∷ rest) s = append_all rest (append_one a s)

  module _ (name id now : Bytes) (entry : TranscriptEntry) (replaced : Result (Unit {0}))
      (s : SessionStore) (xs : List Bytes) (h : s.transcripts name ≡ file_of xs) where
    abbrev appended : Result (Unit {0}) → Append
    appended opened = record {
      session_id = id;
      now = now;
      entry = entry;
      opened = opened;
      replaced = replaced;
    }

    abbrev Adds : Append → Type 0
    Adds a =
        (append_one a s).transcripts name
        ≡ file_of (xs ++ encoded (if writes_to name a then stamped a ∷ [] else []))
