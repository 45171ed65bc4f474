-- ===== src/Providers/Reliable.antt =====
-- src/providers/reliable.cpp: retries and fallbacks. `W` is the state of everything outside, which a
-- call and a sleep change; `T` is the type of temperatures. The pointers are not null, and
-- `max_retries` is below 2^32 - 1, where the loop over the attempts would not end.
pub mod Schedule
pub mod Waiting
use ghostclaw.Base.{ℕ, zero, suc, ◌+◌, ◌*◌, ◌%◌, ◌^◌, List, [], ◌∷◌, Option, none, some}
use ghostclaw.Base.Text.{Bytes, codes}
use ghostclaw.Common.{Result, ok, err}

pub record Provider (W T : Type 0) : Type 0 where
  pub chat_with_system : Option Bytes → Bytes → Bytes → T → W → Result Bytes × W
  pub warmup : W → Result (Unit {0}) × W

pub record ReliableProvider (W T : Type 0) : Type 0 where
  pub primary : Provider W T
  pub fallbacks : List (Provider W T)
  pub max_retries : ℕ
  pub backoff_ms : ℕ

-- `backoff_ms_ * (1ULL << attempt)`; a shift of 64 or more is undefined in C++.
unfoldable pub delay : ℕ → ℕ → ℕ
delay backoff_ms attempt = backoff_ms * 2 ^ attempt % 2 ^ 64

-- `if (result.ok()) return result;`, and otherwise what follows, with the error.
abbrev pub or_else {ℓ} :
    {W : Type ℓ} → Result Bytes × W → (Bytes → W → Result Bytes × W) → Result Bytes × W
or_else (ok answer, w) next = (ok answer, w)
or_else (err error, w) next = next error w

module _ {W : Type 0} (sleep_for : ℕ → W → W) where
  -- The loop from one attempt on, with the retries that are left; `ask` is the provider's call.
  unfoldable pub attempt_loop : (W → Result Bytes × W) → ℕ → ℕ → ℕ → W → Result Bytes × W
  unfolding delay
  attempt_loop ask backoff_ms zero attempt w = ask w
  attempt_loop ask backoff_ms (suc left) attempt w = or_else (ask w) (λ error w'.
      attempt_loop ask backoff_ms left (attempt + 1) (sleep_for (delay backoff_ms attempt) w'))

  module _ {T : Type 0} (p : ReliableProvider W T) (system_prompt : Option Bytes)
      (message model : Bytes) (temperature : T) where
    unfoldable pub execute_with_provider : Provider W T → W → Result Bytes × W
    unfolding attempt_loop
    execute_with_provider provider w =
        attempt_loop (provider.chat_with_system system_prompt message model temperature)
          p.backoff_ms p.max_retries 0 w

    unfoldable pub fallback_loop : Bytes → List (Provider W T) → W → Result Bytes × W
    unfolding execute_with_provider
    fallback_loop last_error [] w = (err last_error, w)
    fallback_loop last_error (fallback ∷ rest) w =
        or_else (execute_with_provider fallback w) (λ error w'. fallback_loop error rest w')

    unfoldable pub chat_with_system : W → Result Bytes × W
    unfolding fallback_loop
    chat_with_system w =
        or_else (execute_with_provider p.primary w) (λ error w'. fallback_loop error p.fallbacks w')

  unfoldable pub chat :
      {T : Type 0} → ReliableProvider W T → Bytes → Bytes → T → W → Result Bytes × W
  unfolding chat_with_system
  chat p message model temperature w = chat_with_system p none message model temperature w

module _ {W T : Type 0} where
  -- What the fallbacks return is not looked at.
  unfoldable pub warm_all : List (Provider W T) → W → W
  warm_all [] w = w
  warm_all (fallback ∷ rest) w = warm_all rest (fallback.warmup w).1

  unfoldable pub warmup : ReliableProvider W T → W → Result (Unit {0}) × W
  unfolding warm_all
  warmup p w = elim (p.primary.warmup w).0 [
    | err error ↦ (err error, (p.primary.warmup w).1)
    | ok _ ↦ (ok tt, warm_all p.fallbacks (p.primary.warmup w).1)
  ]

unfoldable pub name : Bytes
name = codes "reliable"
