-- ===== src/Sessions/Transcript/RoundTrip.antt =====
-- The role and the content of an entry are read back (src/sessions/transcript.cpp).
use ghostclaw.Base.{
  drop, ℕ, ◌+◌, ◌≡◌, refl, ap, ◌∙◌, false, ◌∷◌, ◌++◌, some, null, length, append_assoc,
}
use ghostclaw.Base.Text.{Bytes, codes, equal, index_of, is_prefix}
use ghostclaw.Common.{ok}
use ghostclaw.Common.Fs.{trim, to_lower, lower_byte, is_space}
use ghostclaw.Common.Fs.Trim.{null-trim_solid}
use ghostclaw.Common.Json.{escape_byte, json_escape, json_get_string, value_pos}
use ghostclaw.Common.Json.Field.{
  json_get_string-json_escape, read_quoted, value_pos-marked, quote_solid,
}
use ghostclaw.Sessions.Transcript.{
  TranscriptRole, system, user, assistant, tool, TranscriptEntry, role_to_string, role_from_string,
  behind_content, encode_transcript_entry_jsonl, read_entry, parse_transcript_entry_jsonl,
}

role_from-role_to : (r : TranscriptRole) → role_from_string (role_to_string r) ≡ r
unfolding role_from_string role_to_string trim to_lower lower_byte is_space equal
role_from-role_to system = refl
role_from-role_to user = refl
role_from-role_to assistant = refl
role_from-role_to tool = refl

role_named : (r : TranscriptRole) → null (role_to_string r) ≡ false
unfolding role_to_string
role_named system = refl
role_named user = refl
role_named assistant = refl
role_named tool = refl

-- What stands before the content and its quotes.
abbrev before_content : TranscriptRole → Bytes
before_content r = codes "{\"role\":\"" ++ (role_to_string r ++ codes "\",\"content\":")

role_plain : (r : TranscriptRole) → json_escape (role_to_string r) ≡ role_to_string r
unfolding role_to_string json_escape escape_byte
role_plain system = refl
role_plain user = refl
role_plain assistant = refl
role_plain tool = refl

encode-split :
    (e : TranscriptEntry)
    → encode_transcript_entry_jsonl e
      ≡ before_content e.role ++ (b'"' ∷ (json_escape e.content ++ (b'"' ∷ behind_content e)))
unfolding encode_transcript_entry_jsonl
encode-split e =
    let behind = json_escape e.content ++ (b'"' ∷ behind_content e) in
    rw
      (
        role_plain e.role,
        append_assoc (role_to_string e.role) (codes "\",\"content\":") (b'"' ∷ behind),
      )
      refl

-- What the search for the content sees behind the role.
marked :
    (r : TranscriptRole) (rest : Bytes)
    → (key : ℕ) × (index_of (codes "\"content\"") (before_content r ++ rest) ≡ some key)
      × (drop (key + 7 + 2) (before_content r ++ rest) ≡ b':' ∷ rest)
      × (key + 7 + 3 ≡ length (before_content r))
unfolding index_of is_prefix role_to_string
marked system rest = (17, refl, refl, refl)
marked user rest = (15, refl, refl, refl)
marked assistant rest = (20, refl, refl, refl)
marked tool rest = (15, refl, refl, refl)

content_at :
    (r : TranscriptRole) (rest : Bytes)
    → value_pos (before_content r ++ (b'"' ∷ rest)) (codes "content")
      ≡ some (length (before_content r))
content_at r rest =
    let (key, named, behind, total) = marked r (b'"' ∷ rest) in
    value_pos-marked (before_content r ++ (b'"' ∷ rest)) (codes "content") key b'"' rest named
      behind quote_solid
    ∙ ap some total

role-encode :
    (e : TranscriptEntry)
    → json_get_string (encode_transcript_entry_jsonl e) (codes "role") ≡ role_to_string e.role
unfolding encode_transcript_entry_jsonl
role-encode e = json_get_string-json_escape (codes "role") (role_to_string e.role) _

content-encode :
    (e : TranscriptEntry)
    → json_get_string (encode_transcript_entry_jsonl e) (codes "content") ≡ e.content
content-encode e =
    ap (λ t. json_get_string t (codes "content")) (encode-split e)
    ∙ read_quoted (before_content e.role) e.content (behind_content e) (codes "content")
        (content_at e.role _)

line_left : (e : TranscriptEntry) → null (trim (encode_transcript_entry_jsonl e)) ≡ false
unfolding encode_transcript_entry_jsonl is_space
line_left e = null-trim_solid b'{' _ refl

-- The line that is written for an entry is accepted, and what is read has the entry's role and
-- content, whatever bytes the content and the other texts hold.
pub parse_transcript-encode :
    (e : TranscriptEntry)
    → (out : TranscriptEntry) × (parse_transcript_entry_jsonl (encode_transcript_entry_jsonl e)
        ≡ ok out)
      × (out.role ≡ e.role)
      × (out.content ≡ e.content)
unfolding parse_transcript_entry_jsonl read_entry
parse_transcript-encode e = (
  read_entry (encode_transcript_entry_jsonl e),
  rw (line_left e, ap null (role-encode e) ∙ role_named e.role) refl,
  ap role_from_string (role-encode e) ∙ role_from-role_to e.role,
  content-encode e,
)
