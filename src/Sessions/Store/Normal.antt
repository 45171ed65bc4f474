-- ===== src/Sessions/Store/Normal.antt =====
-- Normalized states (src/sessions/store.cpp).
use ghostclaw.Base.{◌≡◌, refl, ap, ◌∙◌, subst, false, [], ◌∷◌, arith, null, inl, inr, Bool-cases}
use ghostclaw.Base.Text.{Bytes, codes}
use ghostclaw.Common.{ok, ◌>>=◌, Result-cases}
use ghostclaw.Sessions.Key.{SessionKeyParts, make_session_key, parse_session_key}
use ghostclaw.Sessions.Key.RoundTrip.{parse-make, make-parse, make-AreValid, valid_there}
use ghostclaw.Sessions.State.{SessionState}
use ghostclaw.Sessions.Store.{
  or_else, raw_parts, fill_parts, fill_id, fill_defaults, normalize_state,
}

or_else-there : (v d : Bytes) → null v ≡ false → or_else v d ≡ v
or_else-there v d h = rw h refl

null-or_else : (v d : Bytes) → null d ≡ false → null (or_else v d) ≡ false
null-or_else [] d h = h
null-or_else (c ∷ v) d h = refl

or_else_idem : (v d e : Bytes) → null d ≡ false → or_else (or_else v d) e ≡ or_else v d
or_else_idem v d e h = or_else-there (or_else v d) e (null-or_else v d h)

module _ (state : SessionState) (parts : SessionKeyParts) (id now later : Bytes) where
  abbrev filled : SessionState
  filled = fill_defaults now (record (fill_parts parts state) { session_id = id })

  filled-normal :
      parse_session_key id ≡ ok parts
      → null id ≡ false
      → null now ≡ false
      → normalize_state later filled ≡ ok filled
  unfolding normalize_state
  filled-normal parses there time =
      let valid = make-AreValid parts id (make-parse id parts parses) in
      let same : fill_defaults later (fill_parts parts filled) ≡ filled =
        rw
          (
            or_else_idem state.agent_id parts.agent_id parts.agent_id (valid_there _ valid.agent),
            or_else_idem state.channel_id parts.channel_id parts.channel_id
                (valid_there _ valid.channel),
            or_else_idem state.peer_id parts.peer_id parts.peer_id (valid_there _ valid.peer),
            or_else_idem state.updated_at now later time,
            or_else_idem state.thinking_level (codes "standard") (codes "standard") refl,
            or_else_idem state.delivery_context (codes "default") (codes "default") refl,
          )
          refl in
      rw there
        (ap (λ r. fill_id filled r >>= (λ k. ok (fill_defaults later k))) parses ∙ ap ok same)

make-there :
    (parts : SessionKeyParts) (key : Bytes) → make_session_key parts ≡ ok key → null key ≡ false
unfolding make_session_key
make-there parts key h = ground arith

module _ (state n : SessionState) (now later : Bytes) where
  -- A normalized state is normal: normalizing it again, at whatever time, changes nothing.
  pub normalize_state_idem :
      normalize_state now state ≡ ok n → null now ≡ false → normalize_state later n ≡ ok n
  unfolding normalize_state
  normalize_state_idem h time = elim (Bool-cases (null state.session_id)) [
    | inl empty ↦ absurd (ground (arith, empty, h))
    | inr there ↦ elim (Result-cases (parse_session_key state.session_id)) [
      | inl (parts, parses) ↦
          let e : filled state parts state.session_id now later ≡ n = cc in
          subst (λ k. normalize_state later k ≡ ok k) e
            (filled-normal state parts state.session_id now later parses there time)
      | inr (_, raw) ↦ elim (Result-cases (make_session_key (raw_parts state))) [
        | inr (_, unmade) ↦ absurd cc
        | inl (key, made) ↦
            let e : filled state (raw_parts state) key now later ≡ n = cc in
            subst (λ k. normalize_state later k ≡ ok k) e
              (filled-normal state (raw_parts state) key now later
                (parse-make (raw_parts state) key made) (make-there (raw_parts state) key made)
                time)
      ]
    ]
  ]
