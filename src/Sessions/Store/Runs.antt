-- ===== src/Sessions/Store/Runs.antt =====
-- Any run of the operations of the session store (src/sessions/store.cpp).
use ghostclaw.Base.{
  ◌≡◌, refl, sym, ◌∙◌, subst, Bool, true, false, List, [], ◌∷◌, Option, none, some, arith,
  if◌then◌else◌, null, inl, inr, ◌||◌,
}
use ghostclaw.Base.Text.{Bytes}
use ghostclaw.Common.{Result, ok, err, Result-cases}
use ghostclaw.Common.Fs.{trim}
use ghostclaw.Security.ToolPolicy.Names.{lookup}
use ghostclaw.Sessions.State.{SessionState}
use ghostclaw.Sessions.Transcript.{TranscriptEntry}
use ghostclaw.Sessions.Store.{
  States, SessionStore, open_store, entry_of, found_entry, touch_session, merge, touched,
}
use ghostclaw.Sessions.Store.Keyed.{
  AreKeyed, IsOwn, lookup-IsOwn, put-AreKeyed, touch_found-AreKeyed, load_state_index-AreKeyed,
}
use ghostclaw.Sessions.Store.Operations.{
  persist, upsert_state, set_group, register_subagent, unregister_subagent, append_transcript,
  change_entry, change_found, upsert_normalized, unregister_found,
}

-- What an update adds to the state it was given changes no id.
touched-merge-id :
    (now : Bytes) (state n : SessionState) (o : Option SessionState)
    → (touched now state (merge state n o)).session_id ≡ n.session_id
unfolding merge
touched-merge-id now state n none = ground arith
touched-merge-id now state n (some old) = ground arith

module _ (sort : List SessionState → List SessionState) (now : Bytes)
    (replaced : Result (Unit {0})) where
  pub persist-states : (m : States) (s : SessionStore) → (persist sort replaced m s).1.states ≡ m
  unfolding persist
  persist-states m s = elim (Result-cases replaced) [
    | inl (_, e) ↦ rw e refl
    | inr (_, e) ↦ rw e refl
  ]

  persist-AreKeyed :
      (m : States) (s : SessionStore) → AreKeyed m → AreKeyed (persist sort replaced m s).1.states
  persist-AreKeyed m s h = subst AreKeyed (sym (persist-states m s)) h

  change_found-AreKeyed :
      (change : SessionState → SessionState) (s : SessionStore) (id : Bytes)
      (new : Result SessionState) (o : Option SessionState)
      → ((state : SessionState) → (change state).session_id ≡ state.session_id)
      → IsOwn id o
      → AreKeyed s.states
      → AreKeyed (change_found sort now replaced change s (found_entry id new o)).1.states
  change_found-AreKeyed change s id new (some state) same own h =
      persist-AreKeyed _ s (put-AreKeyed id _ s.states (same state ∙ own) h)
  change_found-AreKeyed change s id (ok state) none same own h =
      persist-AreKeyed _ s (put-AreKeyed state.session_id _ s.states (same state) h)
  change_found-AreKeyed change s id (err _) none same own h = h

  change_entry-AreKeyed :
      (id : Bytes) (change : SessionState → SessionState) (s : SessionStore)
      → ((state : SessionState) → (change state).session_id ≡ state.session_id)
      → AreKeyed s.states
      → AreKeyed (change_entry sort now replaced id change s).1.states
  unfolding entry_of
  change_entry-AreKeyed id change s same h =
      change_found-AreKeyed change s id _ (lookup id s.states) same (lookup-IsOwn id s.states h) h

  upsert_normalized-AreKeyed :
      (state : SessionState) (s : SessionStore) (r : Result SessionState)
      → AreKeyed s.states
      → AreKeyed (upsert_normalized sort now replaced state s r).1.states
  upsert_normalized-AreKeyed state s (err _) h = h
  upsert_normalized-AreKeyed state s (ok n) h = persist-AreKeyed _ s (
      put-AreKeyed n.session_id _ s.states
        (touched-merge-id now state n (lookup n.session_id s.states)) h)

  unregister_found-AreKeyed :
      (id subagent : Bytes) (s : SessionStore) (o : Option SessionState)
      → IsOwn id o
      → AreKeyed s.states
      → AreKeyed (unregister_found sort now replaced id subagent s o).1.states
  unregister_found-AreKeyed id subagent s none own h = h
  unregister_found-AreKeyed id subagent s (some state) own h =
      persist-AreKeyed _ s (put-AreKeyed id _ s.states own h)

-- An operation that may change the states.
pub data Operation : Type 0 where
  upsert : SessionState → Operation
  group : Bytes → Bytes → Operation
  register : Bytes → Bytes → Operation
  unregister : Bytes → Bytes → Operation
  append : Result (Unit {0}) → Bytes → TranscriptEntry → Operation

-- Operations, each with its time and whether the index could be replaced.
abbrev pub Calls : Type 0
Calls = List (Operation × (Bytes × Result (Unit {0})))

module _ (sort : List SessionState → List SessionState) where
  abbrev pub call : Operation → Bytes → Result (Unit {0}) → SessionStore → SessionStore
  call (upsert state) now replaced s = (upsert_state sort now replaced state s).1
  call (group id name) now replaced s = (set_group sort now replaced id name s).1
  call (register id subagent) now replaced s = (register_subagent sort now replaced id subagent s).1
  call (unregister id subagent) now replaced s =
      (unregister_subagent sort now replaced id subagent s).1
  call (append opened id entry) now replaced s =
      (append_transcript sort now replaced opened id entry s).1

  abbrev pub run : Calls → SessionStore → SessionStore
  run [] s = s
  run ((operation, (now, replaced)) ∷ cs) s = run cs (call operation now replaced s)

  if_AreKeyed :
      (b : Bool) (s : SessionStore) (e : Bytes) (out : Result (Unit {0}) × SessionStore)
      → AreKeyed s.states
      → AreKeyed out.1.states
      → AreKeyed (if b then (err e, s) else out).1.states
  if_AreKeyed true s e out h k = h
  if_AreKeyed false s e out h k = k

  call-AreKeyed :
      (operation : Operation) (now : Bytes) (replaced : Result (Unit {0})) (s : SessionStore)
      → AreKeyed s.states
      → AreKeyed (call operation now replaced s).states
  unfolding upsert_state set_group register_subagent unregister_subagent append_transcript
      touch_session
  call-AreKeyed (upsert state) now replaced s h =
      upsert_normalized-AreKeyed sort now replaced state s _ h
  call-AreKeyed (group id name) now replaced s h =
      if_AreKeyed (null (trim id)) s _ _ h
        (change_entry-AreKeyed sort now replaced id _ s (λ _. refl) h)
  call-AreKeyed (register id subagent) now replaced s h =
      if_AreKeyed (null id || null subagent) s _ _ h
        (change_entry-AreKeyed sort now replaced id _ s (λ _. ground arith) h)
  call-AreKeyed (unregister id subagent) now replaced s h =
      unregister_found-AreKeyed sort now replaced id subagent s (lookup id s.states)
        (lookup-IsOwn id s.states h) h
  call-AreKeyed (append (err e) id entry) now replaced s h = if_AreKeyed (null id) s _ _ h h
  call-AreKeyed (append (ok _) id entry) now replaced s h = if_AreKeyed (null id) s _ _ h (
      persist-AreKeyed sort now replaced _ _
        (touch_found-AreKeyed id s.states h _ _ (lookup id s.states) (lookup-IsOwn id s.states h)))

  run-AreKeyed : (cs : Calls) (s : SessionStore) → AreKeyed s.states → AreKeyed (run cs s).states
  run-AreKeyed [] s h = h
  run-AreKeyed ((operation, (now, replaced)) ∷ cs) s h =
      run-AreKeyed cs (call operation now replaced s) (call-AreKeyed operation now replaced s h)

  -- Whatever the index file held and whatever operations have run, each state is stored once and
  -- under its own session id.
  pub run-open_store :
      (cs : Calls) (index : Option Bytes) (transcripts : Bytes → Option Bytes)
      → AreKeyed (run cs (open_store index transcripts)).states
  unfolding open_store
  run-open_store cs index transcripts =
      run-AreKeyed cs (open_store index transcripts) (load_state_index-AreKeyed index)
