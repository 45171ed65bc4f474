-- ===== src/Sessions/Store/Raw.antt =====
-- Ids that are not empty and hold no colon (src/sessions/store.cpp): they are looked up as they are, and
-- stored under a key.
use ghostclaw.Base.{
  ◌≡◌, refl, ap, sym, ◌∙◌, subst, true, false, List, [], ◌∷◌, ◌++◌, none, some, arith, null, inl,
  inr, Bool-cases,
}
use ghostclaw.Base.Text.{Bytes, codes, equal, equal_iff, equal_refl, mem, has_byte}
use ghostclaw.Common.{Result, ok, err, Result-cases, ◌>>=◌}
use ghostclaw.Security.ToolPolicy.Names.{lookup}
use ghostclaw.Sessions.Key.{make_session_key, parse_session_key, is_valid_component}
use ghostclaw.Sessions.Key.RoundTrip.{make-parse, valid_there}
use ghostclaw.Sessions.State.{SessionState}
use ghostclaw.Sessions.Store.{
  SessionStore, fill_id, fill_key, fill_defaults, raw_parts, normalize_state, blank_state, entry_of,
  found_entry, get_state, put, add_subagent,
}
use ghostclaw.Sessions.Store.Keyed.{lookup-put}
use ghostclaw.Sessions.Store.Operations.{register_subagent, change_entry, change_found}
use ghostclaw.Sessions.Store.Runs.{persist-states}

-- The key that an id without a colon is stored under.
abbrev pub raw_key : Bytes → Bytes
raw_key id = codes "agent:ghostclaw:channel:unknown:peer:" ++ id

abbrev raw_state : Bytes → Bytes → SessionState
raw_state now id = record {
  session_id = raw_key id;
  agent_id = codes "ghostclaw";
  channel_id = codes "unknown";
  peer_id = id;
  model = [];
  thinking_level = codes "standard";
  group_id = [];
  delivery_context = codes "default";
  updated_at = now;
  subagents = [];
}

module _ (id : Bytes) (raw : is_valid_component id ≡ true) where
  raw-parse : (e : Bytes) × (parse_session_key id ≡ err e)
  raw-parse = elim (Result-cases (parse_session_key id)) [
    | inr failed ↦ failed
    | inl (parts, parses) ↦
        let made = make-parse id parts parses in
        absurd (unfold make_session_key is_valid_component has_byte in ground (arith, made, raw))
  ]

  raw_key-other : equal (raw_key id) id ≡ false
  raw_key-other = elim (Bool-cases (equal (raw_key id) id)) [
    | inr other ↦ other
    | inl same ↦
        let e : raw_key id ≡ id = (equal_iff (raw_key id) id).0 same in
        let colon : is_valid_component (raw_key id) ≡ true =
          subst (λ t. is_valid_component t ≡ true) (sym e) raw in
        absurd (unfold is_valid_component has_byte in cc)
  ]

  make-raw : (now : Bytes) → make_session_key (raw_parts (blank_state id)) ≡ ok (raw_key id)
  unfolding make_session_key is_valid_component has_byte
  make-raw now = ground (arith, raw)

  normalize-raw : (now : Bytes) → normalize_state now (blank_state id) ≡ ok (raw_state now id)
  unfolding normalize_state
  normalize-raw now = rw (valid_there id raw) (
      ap (λ r. fill_id (blank_state id) r >>= (λ k. ok (fill_defaults now k))) raw-parse.1
      ∙ ap (λ r. fill_key (blank_state id) r >>= (λ k. ok (fill_defaults now k))) (make-raw now)
      ∙ refl)

  module _ (sort : List SessionState → List SessionState) (replaced : Result (Unit {0})) where
    abbrev register_one : Bytes → Bytes → SessionStore → SessionStore
    register_one now subagent s = (register_subagent sort now replaced id subagent s).1

    register-change :
        (now subagent : Bytes) (s : SessionStore)
        → null subagent ≡ false
        → register_subagent sort now replaced id subagent s
          ≡ change_entry sort now replaced id (add_subagent now subagent) s
    unfolding register_subagent
    register-change now subagent s there = rw (valid_there id raw, there) refl

    register-raw :
        (now subagent : Bytes) (s : SessionStore)
        → null subagent ≡ false
        → lookup id s.states ≡ none
        → (register_one now subagent s).states
          ≡ put (raw_key id) (add_subagent now subagent (raw_state now id)) s.states
    unfolding entry_of
    register-raw now subagent s there missing =
        let changed = change_found sort now replaced (add_subagent now subagent) s in
        let new = normalize_state now (blank_state id) in
        ap (λ r. r.1.states) (register-change now subagent s there)
        ∙ ap (λ o. (changed (found_entry id new o)).1.states) missing
        ∙ ap (λ r. (changed (found_entry id r none)).1.states) (normalize-raw now)
        ∙ persist-states sort now replaced _ s

    lookup-raw :
        (now subagent : Bytes) (s : SessionStore)
        → null subagent ≡ false
        → lookup id s.states ≡ none
        → lookup id (register_one now subagent s).states ≡ none
    lookup-raw now subagent s there missing =
        ap (lookup id) (register-raw now subagent s there missing)
        ∙ lookup-put (raw_key id) id _ s.states
        ∙ rw raw_key-other missing

    -- For an id that is not empty and holds no colon, and under which no state is stored, the second of
    -- two subagents with names that are not empty replaces the first: the state that the calls leave under the id's key names the second one only, and no
    -- state is found under the id itself.
    pub register_again-raw :
        (first second now later : Bytes) (s : SessionStore)
        → null first ≡ false
        → null second ≡ false
        → lookup id s.states ≡ none
        → (out : SessionState) × (get_state
              (register_one later second (register_one now first s))
              (raw_key id)
            ≡ ok out)
          × (out.subagents ≡ second ∷ [])
          × (get_state (register_one later second (register_one now first s)) id
              ≡ err (codes "session not found"))
    unfolding get_state
    register_again-raw first second now later s a b missing =
        let s1 = register_one now first s in
        let still = lookup-raw now first s a missing in
        let stored : lookup (raw_key id) (register_one later second s1).states
            ≡ some (add_subagent later second (raw_state later id)) =
          ap (lookup (raw_key id)) (register-raw later second s1 b still)
          ∙ lookup-put (raw_key id) (raw_key id) _ s1.states
          ∙ rw (equal_refl (raw_key id)) refl in
        (
          add_subagent later second (raw_state later id),
          rw (get_state, stored) refl,
          unfold mem in refl,
          rw (get_state, lookup-raw later second s1 b still) refl,
        )
