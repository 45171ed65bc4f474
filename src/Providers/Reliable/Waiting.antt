-- ===== src/Providers/Reliable/Waiting.antt =====
-- How long a chat sleeps between its calls (src/providers/reliable.cpp).
use native.Mathlib.Nat.{pow-suc, mul-sub}
use ghostclaw.Base.{
  subst, ℕ, zero, suc, ◌+◌, ◌-◌, ◌*◌, ◌^◌, ◌≤◌, ◌<◌, ◌≡◌, refl, ap, List, [], ◌∷◌, Option, arith,
  length,
}
use ghostclaw.Base.Text.{Bytes}
use ghostclaw.Common.{Result, ok, err}
use ghostclaw.Providers.Reliable.{
  Provider, ReliableProvider, delay, or_else, attempt_loop, execute_with_provider, fallback_loop,
  chat_with_system,
}

-- The sum of the waits from one attempt on.
abbrev waits : ℕ → ℕ → ℕ → ℕ
waits backoff_ms zero attempt = 0
waits backoff_ms (suc left) attempt = delay backoff_ms attempt + waits backoff_ms left (attempt + 1)

same_power : (b m n : ℕ) → m ≡ n → b * 2 ^ m ≡ b * 2 ^ n
same_power b m n e = ap (λ k. b * 2 ^ k) e

twice_power : (b n : ℕ) → b * 2 ^ suc n ≡ 2 * (b * 2 ^ n)
twice_power b n = omega (arith, ap (λ (t : ℕ). b * t) (pow-suc 2 n))

power-le : (b m n : ℕ) → b * 2 ^ m ≤ b * 2 ^ (m + suc n)
power-le b m zero = omega (arith, same_power b (m + 1) (suc m) (omega arith), twice_power b m)
power-le b m (suc n) = omega (
  arith,
  power-le b m n,
  same_power b (m + suc (suc n)) (suc (m + suc n)) (omega arith),
  twice_power b (m + suc n),
)

waits-sum :
    (b left attempt : ℕ)
    → b * 2 ^ (attempt + left) < 2 ^ 64
    → waits b left attempt + b * 2 ^ attempt ≡ b * 2 ^ (attempt + left)
unfolding delay
waits-sum b zero attempt fits = omega (arith, same_power b attempt (attempt + 0) (omega arith))
waits-sum b (suc left) attempt fits =
    let same = same_power b (attempt + suc left) (attempt + 1 + left) (omega arith) in
    let next = same_power b (attempt + 1) (suc attempt) (omega arith) in
    let later = waits-sum b left (attempt + 1) (omega (arith, same, fits)) in
    let twice = twice_power b attempt in
    let least = power-le b attempt left in omega (arith, same, next, later, twice, fits, least)

waits-closed :
    (b retries : ℕ) → b * 2 ^ retries < 2 ^ 64 → waits b retries 0 ≡ b * (2 ^ retries - 1)
waits-closed b retries fits =
    let same = same_power b (0 + retries) retries (omega arith) in
    omega (
      arith,
      same,
      fits,
      mul-sub b (2 ^ retries) 1,
      waits-sum b retries 0 (omega (arith, same, fits)),
    )

module _ {W : Type 0} (slept : W → ℕ) where
  -- The sleep grows by `most` at most, and by `most` where the call fails.
  abbrev pub Waited : ℕ → ℕ → Result Bytes × W → Type 0
  Waited from most r =
      (slept r.1 ≤ from + most) × ((error : Bytes) → r.0 ≡ err error → slept r.1 ≡ from + most)

  or_else-Waited :
      (from a b most : ℕ) (r : Result Bytes × W) (next : Bytes → W → Result Bytes × W)
      → most ≡ a + b
      → Waited from a r
      → ((error : Bytes) (w : W) → Waited (slept w) b (next error w))
      → Waited from most (or_else r next)
  or_else-Waited from a b most (ok answer, w) next e (le, all) h =
      (omega (arith, le), λ error failed. cc)
  or_else-Waited from a b most (err error, w) next e (le, all) h =
      let at = all error refl in
      (
        omega (arith, at, (h error w).0),
        λ error' failed. omega (arith, at, (h error w).1 error' failed),
      )

  module _ (sleep_for : ℕ → W → W)
      (sleeps : (ms : ℕ) (w : W) → slept (sleep_for ms w) ≡ slept w + ms) where
    attempt_loop-Waited :
        (call : W → Result Bytes × W) (backoff_ms left attempt : ℕ) (w : W)
        → ((v : W) → slept (call v).1 ≡ slept v)
        → Waited
            (slept w)
            (waits backoff_ms left attempt)
            (attempt_loop sleep_for call backoff_ms left attempt w)
    unfolding attempt_loop
    attempt_loop-Waited call backoff_ms zero attempt w keeps =
        (omega (arith, keeps w), λ error failed. omega (arith, keeps w))
    attempt_loop-Waited call backoff_ms (suc left) attempt w keeps =
        or_else-Waited (slept w) 0 (waits backoff_ms (suc left) attempt) _ (call w) _ (omega arith)
          (omega (arith, keeps w), λ error failed. omega (arith, keeps w))
          (λ error v.
            let pause = delay backoff_ms attempt in
            let later =
              attempt_loop-Waited call backoff_ms left (attempt + 1) (sleep_for pause v) keeps in
            let at = sleeps pause v in
            (omega (arith, at, later.0), λ error' failed. omega (arith, at, later.1 error' failed)))

    module _ {T : Type 0} (p : ReliableProvider W T) (system_prompt : Option Bytes)
        (message model : Bytes) (temperature : T) where
      -- The calls of the providers themselves do not sleep.
      abbrev pub AllKeep : List (Provider W T) → Type 0
      AllKeep [] = Unit
      AllKeep (provider ∷ rest) =
          ((w : W)
            → slept (provider.chat_with_system system_prompt message model temperature w).1
              ≡ slept w)
          × AllKeep rest

      fallback_loop-Waited :
          (last_error : Bytes) (providers : List (Provider W T)) (w : W)
          → AllKeep providers
          → Waited (slept w) (length providers * waits p.backoff_ms p.max_retries 0) (
              fallback_loop sleep_for p system_prompt message model temperature last_error providers
                w)
      unfolding fallback_loop execute_with_provider
      fallback_loop-Waited last_error [] w keep = (omega arith, λ error failed. omega arith)
      fallback_loop-Waited last_error (provider ∷ rest) w (keeps, keep) =
          or_else-Waited (slept w) (waits p.backoff_ms p.max_retries 0)
            (length rest * waits p.backoff_ms p.max_retries 0) _ _ _ (grind arith)
            (attempt_loop-Waited (provider.chat_with_system system_prompt message model temperature)
              p.backoff_ms p.max_retries 0 w keeps)
            (λ error v. fallback_loop-Waited error rest v keep)

      -- Between its calls a chat sleeps, for each provider, no longer than the backoff times
      -- 2^retries - 1, and exactly so long in sum where it fails, if the calls themselves do not
      -- sleep and the longest wait fits 64 bits.
      pub chat_with_system-Waited :
          (w : W)
          → AllKeep (p.primary ∷ p.fallbacks)
          → p.backoff_ms * 2 ^ p.max_retries < 2 ^ 64
          → Waited
              (slept w)
              (suc (length p.fallbacks) * (p.backoff_ms * (2 ^ p.max_retries - 1)))
              (chat_with_system sleep_for p system_prompt message model temperature w)
      unfolding chat_with_system fallback_loop execute_with_provider
      chat_with_system-Waited w keep fits =
          subst
            (λ k.
              Waited (slept w) (suc (length p.fallbacks) * k)
                (chat_with_system sleep_for p system_prompt message model temperature w))
            (waits-closed p.backoff_ms p.max_retries fits)
            (fallback_loop-Waited [] (p.primary ∷ p.fallbacks) w keep)
