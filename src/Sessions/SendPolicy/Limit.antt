-- ===== src/Sessions/SendPolicy/Limit.antt =====
-- The rate limit of a session (src/sessions/send_policy.cpp).
use ghostclaw.Base.{
  subst, sym, ◌∙◌, not, keep, keep-append, length-keep, ℕ, ◌-◌, ◌≤◌, ◌<◌, ◌≡◌, refl, ap, true,
  false, List, [], ◌∷◌, ◌++◌, ltb, leb, length, length-append, if◌then◌else◌, arith, Bool-cases,
  inl, inr,
}
use ghostclaw.Base.Text.{Bytes, equal, equal_iff}
use ghostclaw.Sessions.SendPolicy.{
  SessionSendPolicy, nanoseconds, pop_before, prune_locked, session_key, set_events, update, allow,
}

length-pop_before :
    (cutoff : ℕ) (events : List ℕ) → length (pop_before cutoff events) ≤ length events
unfolding pop_before
length-pop_before cutoff [] = omega arith
length-pop_before cutoff (e ∷ events) = ground (arith, length-pop_before cutoff events)

length-prune_locked :
    (p : SessionSendPolicy) (events : List ℕ) (now : ℕ)
    → length (prune_locked p events now) ≤ length events
unfolding prune_locked
length-prune_locked p events now =
    ground (arith, length-pop_before (now - nanoseconds p.window) events)

-- The sends of the window before `now`.
abbrev pub recent : ℕ → ℕ → List ℕ → List ℕ
recent window now = keep (λ t. not (ltb t (now - nanoseconds window)))

recent-pop_before :
    (window a b : ℕ) (events : List ℕ)
    → a ≤ b
    → recent window b (pop_before (a - nanoseconds window) events) ≡ recent window b events
unfolding pop_before
recent-pop_before window a b [] h = refl
recent-pop_before window a b (e ∷ events) h = ground (arith, recent-pop_before window a b events h)

recent-prune_locked :
    (p : SessionSendPolicy) (a b : ℕ) (events : List ℕ)
    → 0 < p.window
    → a ≤ b
    → recent p.window b (prune_locked p events a) ≡ recent p.window b events
unfolding prune_locked
recent-prune_locked p a b events pos h = ground (arith, recent-pop_before p.window a b events h)

pub record Send : Type 0 where
  pub session_id : Bytes
  pub now : ℕ

-- The times of the sends that are allowed, for each session key, behind those in `past`.
abbrev pub sends : SessionSendPolicy → (Bytes → List ℕ) → List Send → Bytes → List ℕ
sends p past [] = past
sends p past (s ∷ ss) =
    let (p', allowed) = allow p s.session_id s.now in
    let key = session_key s.session_id in
    sends p' (if allowed then update past key (past key ++ s.now ∷ []) else past) ss

abbrev pub Ascending : ℕ → List Send → ℕ → Type 0
Ascending from [] to = from ≤ to
Ascending from (s ∷ ss) to = (from ≤ s.now) × Ascending s.now ss to

record Covers (from : ℕ) (p : SessionSendPolicy) (past : Bytes → List ℕ) : Type 0 where
  short : (key : Bytes) → length (p.events_by_session key) ≤ p.max_events
  views :
      (key : Bytes) (n : ℕ)
      → from ≤ n
      → recent p.window n (p.events_by_session key) ≡ recent p.window n (past key)

module _ (p : SessionSendPolicy) (past : Bytes → List ℕ) (from : ℕ) (s : Send)
    (limited : 0 < p.max_events) (windowed : 0 < p.window) (le : from ≤ s.now)
    (h : Covers from p past) where
  abbrev key : Bytes
  key = session_key s.session_id

  abbrev queue : List ℕ
  queue = prune_locked p (p.events_by_session key) s.now

  refused_step :
      leb p.max_events (length queue) ≡ true
      → allow p s.session_id s.now ≡ (set_events p key queue, false)
  unfolding allow
  refused_step e = ground (arith, e)

  allowed_step :
      leb p.max_events (length queue) ≡ false
      → allow p s.session_id s.now ≡ (set_events p key (queue ++ s.now ∷ []), true)
  unfolding allow
  allowed_step e = ground (arith, e)

  short_queue : length queue ≤ p.max_events
  short_queue = omega (arith, h.short key, length-prune_locked p (p.events_by_session key) s.now)

  queue_views : (n : ℕ) → s.now ≤ n → recent p.window n queue ≡ recent p.window n (past key)
  queue_views n later =
      recent-prune_locked p s.now n (p.events_by_session key) windowed later
      ∙ h.views key n (omega arith)

  step-Covers :
      Covers s.now
        (allow p s.session_id s.now).0
        (if (allow p s.session_id s.now).1 then update past key (past key ++ s.now ∷ []) else past)
  step-Covers = elim (Bool-cases (leb p.max_events (length queue))) [
    | inl full ↦ rw (refused_step full) (record {
      short = λ k. ground (arith, h.short k, short_queue);
      views = λ k n later. elim (Bool-cases (equal k key)) [
        | inl same ↦ let e = (equal_iff k key).0 same in rw same (rw e (queue_views n later))
        | inr other ↦ rw other (h.views k n (omega arith))
      ];
    })
    | inr room ↦ rw (allowed_step room) (record {
      short = λ k. ground (arith, h.short k, length-append queue (s.now ∷ []));
      views = λ k n later. elim (Bool-cases (equal k key)) [
        | inl same ↦ rw same (
            keep-append _ queue (s.now ∷ [])
            ∙ ap (λ q. q ++ recent p.window n (s.now ∷ [])) (queue_views n later)
            ∙ sym (keep-append _ (past key) (s.now ∷ [])))
        | inr other ↦ rw other (h.views k n (omega arith))
      ];
    })
  ]

  step_same :
      ((allow p s.session_id s.now).0.max_events ≡ p.max_events)
      × ((allow p s.session_id s.now).0.window ≡ p.window)
  unfolding allow
  step_same = (ground arith, ground arith)

sends-le :
    (p : SessionSendPolicy) (past : Bytes → List ℕ) (from now : ℕ) (ss : List Send) (key : Bytes)
    → 0 < p.max_events
    → 0 < p.window
    → Ascending from ss now
    → Covers from p past
    → length (recent p.window now (sends p past ss key)) ≤ p.max_events
sends-le p past from now [] key m w o h = omega (
  arith,
  ap length (h.views key now o),
  length-keep (λ t. not (ltb t (now - nanoseconds p.window))) (p.events_by_session key),
  h.short key,
)
sends-le p past from now (s ∷ ss) key m w (le, o) h =
    let (same_max, same_window) = step_same p past from s m w le h in
    let next = (allow p s.session_id s.now).0 in
    let k = session_key s.session_id in
    let past' =
      if (allow p s.session_id s.now).1 then update past k (past k ++ s.now ∷ []) else past in
    let rest =
      sends-le next past' s.now now ss key (omega arith) (omega arith) o
        (step-Covers p past from s m w le h) in
    subst (λ v. length (recent v now (sends next past' ss key)) ≤ p.max_events) same_window
      (subst (λ v. length (recent next.window now (sends next past' ss key)) ≤ v) same_max rest)

abbrev pub new_policy : ℕ → ℕ → SessionSendPolicy
new_policy max_events window = record {
  max_events = max_events;
  window = window;
  events_by_session = λ key. [];
}

-- With a positive limit and window, and a clock that does not run backwards, the window before
-- the end of a run of sends holds, of the sends that were allowed to one session, at most as
-- many as the limit, whatever the other sessions send.
pub sends-le-max :
    (max_events window now : ℕ) (ss : List Send) (key : Bytes)
    → 0 < max_events
    → 0 < window
    → Ascending 0 ss now
    → length (recent window now (sends (new_policy max_events window) (λ k. []) ss key))
      ≤ max_events
sends-le-max max_events window now ss key m w o =
    sends-le (new_policy max_events window) (λ k. []) 0 now ss key m w o
      (record { short = λ k. omega arith; views = λ k n h. refl })
