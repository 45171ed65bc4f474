-- ===== src/Sessions/State/Identity.antt =====
-- The line of a session names its session (src/sessions/session.cpp).
use ghostclaw.Base.{◌≡◌, refl, ap, ◌∙◌, false, null}
use ghostclaw.Base.Text.{codes}
use ghostclaw.Common.{ok}
use ghostclaw.Common.Fs.{trim, is_space}
use ghostclaw.Common.Fs.Trim.{null-trim_solid}
use ghostclaw.Common.Json.{json_get_string}
use ghostclaw.Common.Json.Field.{json_get_string-json_escape}
use ghostclaw.Sessions.State.{
  read_fields, SessionState, encode_session_state_jsonl, parse_session_state_jsonl,
}

session_id-encode :
    (s : SessionState)
    → json_get_string (encode_session_state_jsonl s) (codes "session_id") ≡ s.session_id
unfolding encode_session_state_jsonl
session_id-encode s = json_get_string-json_escape (codes "session_id") s.session_id _

line_left : (s : SessionState) → null (trim (encode_session_state_jsonl s)) ≡ false
unfolding encode_session_state_jsonl is_space
line_left s = null-trim_solid b'{' _ refl

-- The line that is written for a state with a session id is accepted, and what is read has the
-- same session id, whatever bytes this and the other texts hold.
pub parse-encode :
    (s : SessionState)
    → null s.session_id ≡ false
    → (out : SessionState) × (parse_session_state_jsonl (encode_session_state_jsonl s) ≡ ok out)
      × (out.session_id ≡ s.session_id)
unfolding parse_session_state_jsonl read_fields
parse-encode s there = (
  read_fields (encode_session_state_jsonl s),
  rw (line_left s, ap null (session_id-encode s) ∙ there) refl,
  session_id-encode s,
)
