-- ===== src/Security/Pairing/Attempts.antt =====
-- Runs of pairing attempts (src/security/pairing.cpp).
use ghostclaw.Base.{
  ◌⊎◌, ap, ◌∙◌, ◌/◌, ℕ, ◌+◌, ◌-◌, ◌^◌, ◌≤◌, ◌<◌, ◌≡◌, refl, true, false, List, [], ◌∷◌, none, some,
  arith, length, length-append, ◌↔◌, Bool-cases, Option-cases, inl, inr,
}
use ghostclaw.Base.Text.{Bytes}
use ghostclaw.Security.Pairing.{
  PairingState, PairingResult, PairingResultType, success, failed, locked_out, new_pairing,
  lock_left, code_matches, accept, reject, verify, lockout_duration, constant_time_equals,
}
use ghostclaw.Security.Pairing.Compare.{IsDigest, constant_time_equals_iff}

pub record Attempt : Type 0 where
  pub now : ℕ
  pub random : Bytes
  pub code : Bytes

-- 1 for a successful result, 0 for any other
abbrev pub is_success : PairingResultType → ℕ
is_success success = 1
is_success failed = 0
is_success locked_out = 0

module _ (sha256 : Bytes → Bytes) where
  abbrev pub verify_attempt : PairingState → Attempt → PairingState × PairingResult
  verify_attempt s a = (verify sha256 s a.now a.random a.code).0

  abbrev pub run : PairingState → List Attempt → PairingState
  run s [] = s
  run s (a ∷ as') = run (verify_attempt s a).0 as'

  abbrev pub successes : PairingState → List Attempt → ℕ
  successes s [] = 0
  successes s (a ∷ as') =
      is_success (verify_attempt s a).1.type + successes (verify_attempt s a).0 as'

  -- how many codes the attempt compares with the pairing code
  abbrev pub compares : PairingState → Attempt → ℕ
  compares s a = length (verify sha256 s a.now a.random a.code).1

  -- the guesses of a run that are compared with the pairing code
  abbrev pub guesses : PairingState → List Attempt → ℕ
  guesses s [] = 0
  guesses s (a ∷ as') = compares s a + guesses (verify_attempt s a).0 as'

  verify_locked :
      (s : PairingState) (a : Attempt) {left : ℕ}
      → lock_left s a.now ≡ some left
      → verify_attempt s a ≡ (
        s,
        record { type = locked_out; bearer_token = []; retry_after_seconds = left / 1000000000 },
      )
  unfolding verify
  verify_locked s a e = ground (arith, e)

  verify_right :
      (s : PairingState) (a : Attempt)
      → lock_left s a.now ≡ none
      → (code_matches sha256 s a.code).0 ≡ true
      → verify_attempt s a ≡ accept sha256 s a.random
  unfolding verify
  verify_right s a e m = ground (arith, e, m)

  verify_wrong :
      (s : PairingState) (a : Attempt)
      → lock_left s a.now ≡ none
      → (code_matches sha256 s a.code).0 ≡ false
      → verify_attempt s a ≡ reject sha256 s a.now
  unfolding verify
  verify_wrong s a e m = ground (arith, e, m)

  -- With a digest of 32 bytes, an attempt succeeds exactly when no lockout holds, the code is
  -- not used up, and the digests of the code and of the attempt are equal.
  pub verify-success_iff :
      (s : PairingState) (a : Attempt)
      → IsDigest sha256
      → ((verify_attempt s a).1.type ≡ success) ↔ (
          (c : Bytes) × (lock_left s a.now ≡ none) × (s.code ≡ some c) × (sha256 c ≡ sha256 a.code))
  unfolding verify accept reject code_matches
  verify-success_iff s a d = elim (Option-cases (lock_left s a.now)) [
    | inr (left, locked) ↦ rw locked (cc, λ (c, open_, is_code, same). cc)
    | inl free ↦ elim (Option-cases s.code) [
      | inl used ↦ rw free (ground (arith, used), λ (c, open_, is_code, same). cc)
      | inr (c, is_code) ↦
          let iff = constant_time_equals_iff sha256 c a.code d in
          rw free (
            (λ e. (c, refl, is_code, iff.0 (ground (arith, is_code)))),
            (λ (c', open_, is_code', same).
                let known : constant_time_equals sha256 c a.code ≡ true = iff.1 (cc) in
                ground (arith, is_code, known)),
          )
    ]
  ]

  -- One attempt on a code that is used up.
  used_step :
      (s : PairingState) (a : Attempt)
      → s.code ≡ none
      → ((verify_attempt s a).0.code ≡ none)
        × (is_success (verify_attempt s a).1.type ≡ 0)
        × ((verify_attempt s a).0.token_hashes ≡ s.token_hashes)
        × (compares s a ≡ 0)
  unfolding verify reject code_matches
  used_step s a h = (ground arith, ground arith, ground arith, ground arith)

  used_run :
      (s : PairingState) (as' : List Attempt)
      → s.code ≡ none
      → (successes s as' ≡ 0) × ((run s as').token_hashes ≡ s.token_hashes) × (guesses s as' ≡ 0)
  used_run s [] h = (refl, refl, refl)
  used_run s (a ∷ as') h =
      let (used, quiet, same, unseen) = used_step s a h in
      let (later_quiet, later_same, later_unseen) = used_run (verify_attempt s a).0 as' used in
      (omega arith, later_same ∙ same, omega arith)

  -- One attempt: it succeeds, adds a token and uses up the code, or it does none of these.
  success_step :
      (s : PairingState) (a : Attempt)
      → ((is_success (verify_attempt s a).1.type ≡ 1)
          × ((verify_attempt s a).0.code ≡ none)
          × (length (verify_attempt s a).0.token_hashes ≡ length s.token_hashes + 1))
        ⊎ ((is_success (verify_attempt s a).1.type ≡ 0)
            × ((verify_attempt s a).0.token_hashes ≡ s.token_hashes))
  unfolding reject accept
  success_step s a = elim (Option-cases (lock_left s a.now)) [
    | inr (left, locked) ↦ rw (verify_locked s a locked) (inr (refl, refl))
    | inl free ↦ elim (Bool-cases (code_matches sha256 s a.code).0) [
      | inl same ↦
          rw (verify_right s a free same) (inl (refl, refl, length-append s.token_hashes _))
      | inr wrong ↦ rw (verify_wrong s a free wrong) (inr (ground arith, ground arith))
    ]
  ]

  -- However many attempts are made, the code pairs at most once, and each success adds one token.
  pub pairs_once :
      (s : PairingState) (as' : List Attempt)
      → (successes s as' ≤ 1)
        × (length (run s as').token_hashes ≡ length s.token_hashes + successes s as')
  pairs_once s [] = omega arith
  pairs_once s (a ∷ as') = elim (success_step s a) [
    | inl (one, used, longer) ↦
        let (quiet, same, _) = used_run (verify_attempt s a).0 as' used in
        omega (arith, ap length same)
    | inr (zero_, same) ↦
        let (once, counted) = pairs_once (verify_attempt s a).0 as' in omega (arith, ap length same)
  ]

  abbrev pub Before : ℕ → List Attempt → Type 0
  Before end [] = Unit
  Before end (a ∷ as') = (a.now < end) × Before end as'

  abbrev pub Since : ℕ → List Attempt → Type 0
  Since start [] = Unit
  Since start (a ∷ as') = (start ≤ a.now) × Since start as'

  lock_left-some :
      (s : PairingState) (now : ℕ) {until : ℕ}
      → s.locked_until ≡ some until
      → now < until
      → lock_left s now ≡ some (until - now)
  unfolding lock_left
  lock_left-some s now h lt = ground arith

  lock_left-none : (s : PairingState) (now : ℕ) → s.locked_until ≡ none → lock_left s now ≡ none
  unfolding lock_left
  lock_left-none s now h = ground arith

  compares-locked :
      (s : PairingState) (a : Attempt) {left : ℕ} → lock_left s a.now ≡ some left → compares s a ≡ 0
  unfolding verify
  compares-locked s a e = ground (arith, e)

  locked_guesses :
      (s : PairingState) (as' : List Attempt) (until : ℕ)
      → s.locked_until ≡ some until
      → Before until as'
      → guesses s as' ≡ 0
  locked_guesses s [] until h b = refl
  locked_guesses s (a ∷ as') until h (lt, b) =
      let locked = lock_left-some s a.now h lt in
      let same = verify_locked s a locked in
      let later : guesses (verify_attempt s a).0 as' ≡ guesses s as' =
        ap (λ (r : PairingState × PairingResult). guesses r.0 as') same in
      omega (arith, compares-locked s a locked, later, locked_guesses s as' until h b)

  Before-le : (m n : ℕ) (as' : List Attempt) → m ≤ n → Before m as' → Before n as'
  Before-le m n [] le b = tt
  Before-le m n (a ∷ as') le (lt, b) = (omega arith, Before-le m n as' le b)

  -- One attempt on an unlocked state: it uses up the code, locks for the whole duration, or takes
  -- one of the attempts left.
  guess_step :
      (s : PairingState) (a : Attempt)
      → s.locked_until ≡ none
      → s.max_attempts < 2 ^ 32
      → s.failed_attempts < s.max_attempts
      → ((verify_attempt s a).0.code ≡ none)
        ⊎ ((verify_attempt s a).0.locked_until ≡ some (a.now + lockout_duration))
        ⊎ (((verify_attempt s a).0.locked_until ≡ none)
            × ((verify_attempt s a).0.max_attempts ≡ s.max_attempts)
            × ((verify_attempt s a).0.failed_attempts ≡ s.failed_attempts + 1)
            × (s.failed_attempts + 1 < s.max_attempts))
  unfolding reject accept
  guess_step s a h fits left =
      let free = lock_left-none s a.now h in
      elim (Bool-cases (code_matches sha256 s a.code).0) [
        | inl same ↦ rw (verify_right s a free same) (inl refl)
        | inr wrong ↦ rw (verify_wrong s a free wrong) (ground (arith, h))
      ]

  compares-le : (s : PairingState) (a : Attempt) → compares s a ≤ 1
  unfolding verify code_matches
  compares-le s a = ground arith

  guesses-le :
      (s : PairingState) (as' : List Attempt) (start : ℕ)
      → s.locked_until ≡ none
      → s.max_attempts < 2 ^ 32
      → s.failed_attempts < s.max_attempts
      → Since start as'
      → Before (start + lockout_duration) as'
      → guesses s as' + s.failed_attempts ≤ s.max_attempts
  guesses-le s [] start h fits left since before = omega arith
  guesses-le s (a ∷ as') start h fits left (s0, since) (b0, before) =
      elim (guess_step s a h fits left) [
        | inl used ↦
            let (_, _, unseen) = used_run (verify_attempt s a).0 as' used in
            omega (arith, compares-le s a)
        | inr (inl locked) ↦ omega (
          arith,
          compares-le s a,
          locked_guesses (verify_attempt s a).0 as' (a.now + lockout_duration) locked (
              Before-le (start + lockout_duration) (a.now + lockout_duration) as' (omega arith)
                before),
        )
        | inr (inr (free, same, counted, more)) ↦
            let fits' : (verify_attempt s a).0.max_attempts < 2 ^ 32 = omega arith in
            omega (
              arith,
              compares-le s a,
              guesses-le (verify_attempt s a).0 as' start free fits' (omega arith) since before,
            )
      ]

  -- Of attempts on a new pairing state that all fall within five minutes, `verify` compares at most
  -- `max` with the code, if `max` is a positive `uint32_t`.
  pub guesses-le-max :
      (code : Bytes) (max start : ℕ) (as' : List Attempt)
      → 0 < max
      → max < 2 ^ 32
      → Since start as'
      → Before (start + lockout_duration) as'
      → guesses (new_pairing code max) as' ≤ max
  guesses-le-max code max start as' pos fits since before =
      omega (arith, guesses-le (new_pairing code max) as' start refl fits pos since before)
