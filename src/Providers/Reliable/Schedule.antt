-- ===== src/Providers/Reliable/Schedule.antt =====
-- The calls of a chat as one schedule (src/providers/reliable.cpp).
use ghostclaw.Base.{ℕ, zero, suc, ◌+◌, ◌≡◌, refl, sym, ◌∙◌, List, [], ◌∷◌, ◌++◌, Option}
use ghostclaw.Base.Text.{Bytes}
use ghostclaw.Common.{Result, ok, err}
use ghostclaw.Providers.Reliable.{
  Provider, ReliableProvider, delay, or_else, attempt_loop, execute_with_provider, fallback_loop,
  chat_with_system,
}

pub data Action (W : Type 0) : Type 0 where
  ask : (W → Result Bytes × W) → Action W
  wait : ℕ → Action W

module _ {W : Type 0} (sleep_for : ℕ → W → W) where
  -- A schedule is followed up to the first answer; without one, the last error is returned.
  abbrev pub run_schedule : List (Action W) → Bytes → W → Result Bytes × W
  run_schedule [] last_error w = (err last_error, w)
  run_schedule (wait ms ∷ rest) last_error w = run_schedule rest last_error (sleep_for ms w)
  run_schedule (ask call ∷ rest) last_error w = or_else (call w) (run_schedule rest)

  -- One provider is asked once more than there are retries, and each wait is twice as long as the
  -- one before.
  abbrev pub tries : (W → Result Bytes × W) → ℕ → ℕ → ℕ → List (Action W)
  tries call backoff_ms zero attempt = ask call ∷ []
  tries call backoff_ms (suc left) attempt =
      ask call ∷ wait (delay backoff_ms attempt) ∷ tries call backoff_ms left (attempt + 1)

  or_else_assoc :
      (r : Result Bytes × W) (f g : Bytes → W → Result Bytes × W)
      → or_else (or_else r f) g ≡ or_else r (λ error w. or_else (f error w) g)
  or_else_assoc (ok answer, w) f g = refl
  or_else_assoc (err error, w) f g = refl

  or_else_cong :
      (r : Result Bytes × W) (f g : Bytes → W → Result Bytes × W)
      → ((error : Bytes) (w : W) → f error w ≡ g error w)
      → or_else r f ≡ or_else r g
  or_else_cong (ok answer, w) f g h = refl
  or_else_cong (err error, w) f g h = h error w

  run_tries :
      (call : W → Result Bytes × W) (backoff_ms left attempt : ℕ) (rest : List (Action W))
      (last_error : Bytes) (w : W)
      → run_schedule (tries call backoff_ms left attempt ++ rest) last_error w
        ≡ or_else (attempt_loop sleep_for call backoff_ms left attempt w) (run_schedule rest)
  unfolding attempt_loop
  run_tries call backoff_ms zero attempt rest last_error w = refl
  run_tries call backoff_ms (suc left) attempt rest last_error w =
      or_else_cong (call w) _ _ (λ error w'.
        run_tries call backoff_ms left (attempt + 1) rest error
          (sleep_for (delay backoff_ms attempt) w'))
      ∙ sym (or_else_assoc (call w) _ (run_schedule rest))

  module _ {T : Type 0} (p : ReliableProvider W T) (system_prompt : Option Bytes)
      (message model : Bytes) (temperature : T) where
    abbrev pub tries_of : List (Provider W T) → List (Action W)
    tries_of [] = []
    tries_of (provider ∷ rest) =
        tries (provider.chat_with_system system_prompt message model temperature) p.backoff_ms
          p.max_retries 0
        ++ tries_of rest

    run_fallbacks :
        (providers : List (Provider W T)) (last_error : Bytes) (w : W)
        → fallback_loop sleep_for p system_prompt message model temperature last_error providers w
          ≡ run_schedule (tries_of providers) last_error w
    unfolding fallback_loop execute_with_provider
    run_fallbacks [] last_error w = refl
    run_fallbacks (provider ∷ rest) last_error w =
        or_else_cong
          (execute_with_provider sleep_for p system_prompt message model temperature provider w) _ _
          (λ error w'. run_fallbacks rest error w')
        ∙ sym (
            run_tries (provider.chat_with_system system_prompt message model temperature)
              p.backoff_ms p.max_retries 0 (tries_of rest) last_error w)

    -- A chat follows one schedule, the tries of the primary provider and then those of each
    -- fallback in order, up to the first answer, which it returns; without one it returns the last
    -- error. The primary is always asked, so no error has to be given beforehand.
    pub chat_with_system-run_schedule :
        (w : W)
        → chat_with_system sleep_for p system_prompt message model temperature w
          ≡ run_schedule (tries_of (p.primary ∷ p.fallbacks)) [] w
    unfolding chat_with_system fallback_loop execute_with_provider
    chat_with_system-run_schedule w = run_fallbacks (p.primary ∷ p.fallbacks) [] w
