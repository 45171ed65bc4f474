-- ===== src/Sessions/Key.antt =====
-- src/sessions/session_key.cpp: the text form of an agent, channel and peer.
pub mod RoundTrip
use ghostclaw.Base.{◌+◌, ◌-◌, Bool, ◌&&◌, not, ◌++◌, null, drop}
use ghostclaw.Base.Text.{Bytes, codes, has_byte, find, substr}
use ghostclaw.Common.{Result, ok, err, ◌>>=◌, ◌>>◌, guard, require, is_ok}
use ghostclaw.Common.Fs.{starts_with}

pub record SessionKeyParts : Type 0 where
  pub agent_id : Bytes
  pub channel_id : Bytes
  pub peer_id : Bytes

unfoldable pub is_valid_component : Bytes → Bool
unfolding has_byte
is_valid_component value = not (null value) && not (has_byte b':' value)

unfoldable pub make_session_key : SessionKeyParts → Result Bytes
make_session_key parts = do
  guard (is_valid_component parts.agent_id) (codes "invalid agent_id")
  guard (is_valid_component parts.channel_id) (codes "invalid channel_id")
  guard (is_valid_component parts.peer_id) (codes "invalid peer_id")
  ok (
      codes "agent:"
      ++ (parts.agent_id
          ++ (codes ":channel:" ++ (parts.channel_id ++ (codes ":peer:" ++ parts.peer_id)))))

unfoldable pub parse_session_key : Bytes → Result SessionKeyParts
parse_session_key key = do
  guard (starts_with key (codes "agent:")) (codes "missing agent prefix")
  channel_marker ← require (find key (codes ":channel:") 6) (codes "missing channel marker")
  peer_marker ←
      require (find key (codes ":peer:") (channel_marker + 9)) (codes "missing peer marker")
  let agent_id = substr key 6 (channel_marker - 6)
  let channel_id = substr key (channel_marker + 9) (peer_marker - (channel_marker + 9))
  let peer_id = drop (peer_marker + 6) key
  guard
      (is_valid_component agent_id && (is_valid_component channel_id && is_valid_component peer_id))
      (codes "invalid session key components")
  ok (record { agent_id = agent_id; channel_id = channel_id; peer_id = peer_id })

unfoldable pub is_session_key : Bytes → Bool
is_session_key value = is_ok (parse_session_key value)
