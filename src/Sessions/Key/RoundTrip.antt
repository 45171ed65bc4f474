-- ===== src/Sessions/Key/RoundTrip.antt =====
-- Making and parsing a session key are inverse to each other (src/sessions/session_key.cpp).
use ghostclaw.Base.{
  false, null, ℕ, ◌+◌, ◌-◌, ◌≡◌, refl, sym, ap, ◌∙◌, true, inl, inr, ◌++◌, append_assoc, drop,
  arith, length, length-append, take-append, drop-append, some, Option-cases,
}
use ghostclaw.Base.Text.{
  Bytes, codes, Lacks, has_byte→Lacks, substr, find, find_split, find-append, is_prefix_split,
  is_prefix,
}
use ghostclaw.Common.{ok}
use ghostclaw.Common.Fs.{starts_with}
use ghostclaw.Sessions.Key.{
  SessionKeyParts, is_valid_component, make_session_key, parse_session_key,
}

valid→Lacks : (s : Bytes) → is_valid_component s ≡ true → Lacks b':' s
unfolding is_valid_component
valid→Lacks s h = has_byte→Lacks b':' s (ground arith)

pub valid_there : (s : Bytes) → is_valid_component s ≡ true → null s ≡ false
unfolding is_valid_component
valid_there s h = ground arith

-- The parts of a key that is made.
pub record AreValid (parts : SessionKeyParts) : Type 0 where
  pub agent : is_valid_component parts.agent_id ≡ true
  pub channel : is_valid_component parts.channel_id ≡ true
  pub peer : is_valid_component parts.peer_id ≡ true

pub make-AreValid :
    (parts : SessionKeyParts) (key : Bytes) → make_session_key parts ≡ ok key → AreValid parts
unfolding make_session_key
make-AreValid parts key h = record {
  agent = ground arith;
  channel = ground arith;
  peer = ground arith;
}

-- What the successful steps of a parse found.
record Markers (key : Bytes) (parts : SessionKeyParts) : Type 0 where
  channel : ℕ
  peer : ℕ
  prefixed : starts_with key (codes "agent:") ≡ true
  found_channel : find key (codes ":channel:") 6 ≡ some channel
  found_peer : find key (codes ":peer:") (channel + 9) ≡ some peer
  agent_is : parts.agent_id ≡ substr key 6 (channel - 6)
  channel_is : parts.channel_id ≡ substr key (channel + 9) (peer - (channel + 9))
  peer_is : parts.peer_id ≡ drop (peer + 6) key
  agent_valid : is_valid_component parts.agent_id ≡ true
  channel_valid : is_valid_component parts.channel_id ≡ true
  peer_valid : is_valid_component parts.peer_id ≡ true

markers :
    (key : Bytes) (parts : SessionKeyParts) → parse_session_key key ≡ ok parts → Markers key parts
unfolding parse_session_key
markers key parts h = elim (Option-cases (find key (codes ":channel:") 6)) [
  | inl e ↦ absurd (ground (arith, e))
  | inr (c, e) ↦ elim (Option-cases (find key (codes ":peer:") (c + 9))) [
    | inl f ↦ absurd (ground (arith, e, f))
    | inr (p, f) ↦ record {
      channel = c;
      peer = p;
      prefixed = ground (arith, e, f);
      found_channel = e;
      found_peer = f;
      agent_is = ground (arith, e, f);
      channel_is = ground (arith, e, f);
      peer_is = ground (arith, e, f);
      agent_valid = ground (arith, e, f);
      channel_valid = ground (arith, e, f);
      peer_valid = ground (arith, e, f);
    }
  ]
]

-- A key that parses is the key made from the parts.
pub make-parse :
    (key : Bytes) (parts : SessionKeyParts)
    → parse_session_key key ≡ ok parts
    → make_session_key parts ≡ ok key
unfolding make_session_key starts_with
make-parse key parts h =
    let m = markers key parts h in
    let front = is_prefix_split (codes "agent:") key m.prefixed in
    let middle = find_split key (codes ":channel:") 6 m.found_channel in
    let back = find_split key (codes ":peer:") (m.channel + 9) m.found_peer in
    ground
      (arith, m.agent_valid, m.channel_valid, m.peer_valid, m.agent_is, m.channel_is, m.peer_is)

module _ (a c p : Bytes) where
  abbrev key_of : Bytes
  key_of = codes "agent:" ++ (a ++ (codes ":channel:" ++ (c ++ (codes ":peer:" ++ p))))

  abbrev front_of : Bytes
  front_of = codes "agent:" ++ (a ++ codes ":channel:")

  abbrev middle_of : Bytes
  middle_of = front_of ++ (c ++ codes ":peer:")

  key-front : front_of ++ (c ++ (codes ":peer:" ++ p)) ≡ key_of
  key-front = simp append_assoc

  key-middle : middle_of ++ p ≡ key_of
  key-middle = simp append_assoc

  length-front : 6 + length a + 9 ≡ length front_of
  length-front = omega (arith, length-append a (codes ":channel:"))

  length-middle : 6 + length a + 9 + length c + 6 ≡ length middle_of
  length-middle = omega (
    arith,
    length-append front_of (c ++ codes ":peer:"),
    length-append c (codes ":peer:"),
    length-front,
  )

  drop-front : drop (6 + length a + 9) key_of ≡ c ++ (codes ":peer:" ++ p)
  drop-front =
      rw length-front (ap (drop (length front_of)) (sym key-front) ∙ drop-append front_of _)

  drop-middle : drop (6 + length a + 9 + length c + 6) key_of ≡ p
  drop-middle =
      rw length-middle (ap (drop (length middle_of)) (sym key-middle) ∙ drop-append middle_of p)

  find-channel : Lacks b':' a → find key_of (codes ":channel:") 6 ≡ some (6 + length a)
  find-channel h =
      find-append (codes "agent:") a b':' (codes "channel:") (c ++ (codes ":peer:" ++ p)) 6 refl h

  find-peer :
      Lacks b':' c
      → find key_of (codes ":peer:") (6 + length a + 9) ≡ some (6 + length a + 9 + length c)
  find-peer h =
      ap (λ k. find k (codes ":peer:") (6 + length a + 9)) (sym key-front)
      ∙ find-append front_of c b':' (codes "peer:") p (6 + length a + 9) length-front h

  agent-substr : substr key_of 6 (6 + length a - 6) ≡ a
  agent-substr = let len : 6 + length a - 6 ≡ length a = omega arith in rw len (take-append a _)

  channel-substr :
      substr key_of (6 + length a + 9) (6 + length a + 9 + length c - (6 + length a + 9)) ≡ c
  channel-substr =
      let len : 6 + length a + 9 + length c - (6 + length a + 9) ≡ length c = omega arith in
      rw (len, drop-front) (take-append c _)

-- The parts of a key that was made are parsed back.
pub parse-make :
    (parts : SessionKeyParts) (key : Bytes)
    → make_session_key parts ≡ ok key
    → parse_session_key key ≡ ok parts
parse-make parts key h =
    let a = parts.agent_id in
    let c = parts.channel_id in
    let p = parts.peer_id in
    let valid : (is_valid_component a ≡ true)
        × (is_valid_component c ≡ true)
        × (is_valid_component p ≡ true)
        × (key ≡ key_of a c p) =
      unfold make_session_key in (ground arith, ground arith, ground arith, ground arith) in
    let fc = find-channel a c p (valid→Lacks a valid.0) in
    let fp = find-peer a c p (valid→Lacks c valid.1) in
    rw valid.3 (
      unfold parse_session_key starts_with is_prefix in
      ground (
        arith,
        fc,
        fp,
        agent-substr a c p,
        channel-substr a c p,
        drop-middle a c p,
        valid.0,
        valid.1,
        valid.2,
      ))
