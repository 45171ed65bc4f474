-- ===== src/Sessions/Store/Operations.antt =====
-- The operations of the session store (src/sessions/store.cpp).
use ghostclaw.Base.{◌||◌, List, [], ◌∷◌, ◌++◌, Option, none, some, if◌then◌else◌, null, keep, map}
use ghostclaw.Base.Lines.{unlines}
use ghostclaw.Base.Text.{Bytes, codes, equal}
use ghostclaw.Common.{Result, ok, err}
use ghostclaw.Common.Fs.{trim}
use ghostclaw.Security.ToolPolicy.Names.{lookup}
use ghostclaw.Sessions.State.{SessionState, encode_session_state_jsonl}
use ghostclaw.Sessions.Transcript.{TranscriptEntry, encode_transcript_entry_jsonl}
use ghostclaw.Sessions.Store.{
  States, SessionStore, sanitize_session_filename, put, or_else, normalize_state, merge, touched,
  entry_of, add_subagent, drop_subagent, touch_session, append_text,
}

module _ (sort : List SessionState → List SessionState) where
  abbrev pub index_text : States → Bytes
  index_text states = unlines (map encode_session_state_jsonl (sort (map (λ e. e.1) states)))

  -- The states after a change, and the index file if it can be replaced.
  unfoldable pub persist :
      Result (Unit {0}) → States → SessionStore → Result (Unit {0}) × SessionStore
  persist (ok _) states s = (ok tt, record s { states = states; index = some (index_text states) })
  persist (err e) states s = (err e, record s { states = states })

  unfoldable pub list_states : SessionStore → List SessionState
  list_states s = sort (map (λ e. e.1) s.states)

  unfoldable pub list_states_by_group : SessionStore → Bytes → List SessionState
  list_states_by_group s group_id =
      sort (keep (λ state. equal (trim state.group_id) (trim group_id)) (map (λ e. e.1) s.states))

  module _ (now : Bytes) (replaced : Result (Unit {0})) where
    -- An entry is changed and the index written.
    abbrev pub change_found :
        (SessionState → SessionState)
        → SessionStore
        → Result (Bytes × SessionState)
        → Result (Unit {0}) × SessionStore
    change_found change s (err e) = (err e, s)
    change_found change s (ok (key, state)) = persist replaced (put key (change state) s.states) s

    abbrev pub change_entry :
        Bytes → (SessionState → SessionState) → SessionStore → Result (Unit {0}) × SessionStore
    change_entry session_id change s = change_found change s (entry_of now session_id s.states)

    abbrev pub upsert_normalized :
        SessionState → SessionStore → Result SessionState → Result (Unit {0}) × SessionStore
    upsert_normalized state s (err e) = (err e, s)
    upsert_normalized state s (ok normalized) =
        let merged = merge state normalized (lookup normalized.session_id s.states) in
        persist replaced (put normalized.session_id (touched now state merged) s.states) s

    unfoldable pub upsert_state : SessionState → SessionStore → Result (Unit {0}) × SessionStore
    unfolding persist normalize_state merge put
    upsert_state state s = upsert_normalized state s (normalize_state now state)

    unfoldable pub set_group : Bytes → Bytes → SessionStore → Result (Unit {0}) × SessionStore
    unfolding persist entry_of put
    set_group session_id group_id s =
        if null (trim session_id)
        then (err (codes "session_id is required"), s)
        else change_entry session_id
            (λ state. record state { group_id = trim group_id; updated_at = now }) s

    unfoldable pub register_subagent :
        Bytes → Bytes → SessionStore → Result (Unit {0}) × SessionStore
    unfolding persist entry_of put
    register_subagent session_id subagent_id s =
        if null session_id || null subagent_id
        then (err (codes "session_id and subagent_id are required"), s)
        else change_entry session_id (add_subagent now subagent_id) s

    abbrev pub unregister_found :
        Bytes → Bytes → SessionStore → Option SessionState → Result (Unit {0}) × SessionStore
    unregister_found session_id subagent_id s none = (ok tt, s)
    unregister_found session_id subagent_id s (some state) =
        persist replaced (put session_id (drop_subagent now subagent_id state) s.states) s

    unfoldable pub unregister_subagent :
        Bytes → Bytes → SessionStore → Result (Unit {0}) × SessionStore
    unfolding persist put lookup
    unregister_subagent session_id subagent_id s =
        unregister_found session_id subagent_id s (lookup session_id s.states)

    unfoldable pub append_transcript :
        Result (Unit {0})
        → Bytes
        → TranscriptEntry
        → SessionStore
        → Result (Unit {0}) × SessionStore
    unfolding persist touch_session
    append_transcript opened session_id entry s =
        if null session_id then (err (codes "session_id is required"), s) else elim opened [
          | err e ↦ (err e, s)
          | ok _ ↦
              let stamped = record entry { timestamp = or_else entry.timestamp now } in
              let name = sanitize_session_filename session_id in
              let text =
                append_text (s.transcripts name)
                  (encode_transcript_entry_jsonl stamped ++ b'\n' ∷ []) in
              persist replaced (touch_session stamped.timestamp session_id s.states) (record s {
                transcripts = λ k. if equal k name then some text else s.transcripts k;
              })
        ]
