-- ===== src/Channels/Supervisor/Backoff.antt =====
-- How long the supervisor waits, and for what (src/channels/supervisor.cpp).
use ghostclaw.Base.{
  ℕ, suc, ◌*◌, ◌^◌, ◌≤◌, min, ◌≡◌, refl, ap, sym, ◌∙◌, Bool, true, false, List, [], ◌∷◌, ◌++◌,
  if◌then◌else◌, arith, inl, inr, Bool-cases,
}
use ghostclaw.Common.{ok, err, Result-cases}
use ghostclaw.Channels.Supervisor.{
  SupervisorConfig, Action, on_message, start_channel, back_off, health_check, poll, stop_channel,
  Round, watch, round_loop, run_loop,
}
use native.Mathlib.Nat.{pow-suc}

-- The sleeps among some actions, in milliseconds.
abbrev pub waits : List Action → List ℕ
waits [] = []
waits (back_off ms ∷ actions) = ms ∷ waits actions
waits (poll ∷ actions) = 50 ∷ waits actions
waits (on_message ∷ actions) = waits actions
waits (start_channel ∷ actions) = waits actions
waits (health_check ∷ actions) = waits actions
waits (stop_channel ∷ actions) = waits actions

-- A wait of 50 milliseconds for each of the first checks that are made and find the channel healthy.
abbrev pub healthy_waits : List (Bool × Bool) → List ℕ
healthy_waits [] = []
healthy_waits ((true, healthy) ∷ checks) = []
healthy_waits ((false, false) ∷ checks) = []
healthy_waits ((false, true) ∷ checks) = 50 ∷ healthy_waits checks

-- The wait behind each start that fails, where `failures` starts have failed in a row before it, and
-- the waits while a channel that is started stays healthy.
abbrev pub doubled : SupervisorConfig → ℕ → List Round → List ℕ
doubled config failures [] = []
doubled config failures (r ∷ rounds) =
    let again = doubled config (suc failures) rounds in
    let anew = doubled config 0 rounds in
    if r.stop_before then [] else if r.stop_after then [] else elim r.start_status [
      | err _ ↦ min (config.initial_backoff * 2 ^ failures) config.max_backoff ∷ again
      | ok _ ↦ healthy_waits r.checks ++ anew
    ]

waits-watch :
    (checks : List (Bool × Bool)) (rest : List Action)
    → waits (watch checks ++ rest) ≡ healthy_waits checks ++ waits rest
unfolding watch
waits-watch [] rest = refl
waits-watch ((true, healthy) ∷ checks) rest = refl
waits-watch ((false, true) ∷ checks) rest = ap (◌∷◌ 50) (waits-watch checks rest)
waits-watch ((false, false) ∷ checks) rest = refl

next_backoff :
    (config : SupervisorConfig) (failures : ℕ)
    → min (min (config.initial_backoff * 2 ^ failures) config.max_backoff * 2) config.max_backoff
      ≡ min (config.initial_backoff * 2 ^ suc failures) config.max_backoff
next_backoff config failures =
    omega (arith, ap (λ (t : ℕ). config.initial_backoff * t) (pow-suc 2 failures))

round_loop-doubled :
    (config : SupervisorConfig) (failures : ℕ) (rounds : List Round)
    → config.initial_backoff ≤ config.max_backoff
    → waits
        (round_loop config (min (config.initial_backoff * 2 ^ failures) config.max_backoff) rounds)
      ≡ doubled config failures rounds
unfolding round_loop
round_loop-doubled config failures [] le = refl
round_loop-doubled config failures (r ∷ rounds) le =
    let first : min (config.initial_backoff * 2 ^ 0) config.max_backoff ≡ config.initial_backoff =
      omega arith in
    let anew : waits (round_loop config config.initial_backoff rounds) ≡ doubled config 0 rounds =
      ap (λ k. waits (round_loop config k rounds)) (sym first)
      ∙ round_loop-doubled config 0 rounds le in
    let again =
      ap (λ k. waits (round_loop config k rounds)) (next_backoff config failures)
      ∙ round_loop-doubled config (suc failures) rounds le in
    elim (Bool-cases r.stop_before) [
      | inl before ↦ rw before refl
      | inr on ↦ elim (Bool-cases r.stop_after) [
        | inl behind ↦ rw (on, behind) refl
        | inr still ↦ elim (Result-cases r.start_status) [
          | inl (u, started) ↦
              rw (on, still, started)
                (waits-watch r.checks _ ∙ ap (λ k. healthy_waits r.checks ++ k) anew)
          | inr (e, failed) ↦
              rw (on, still, failed)
                (ap (◌∷◌ (min (config.initial_backoff * 2 ^ failures) config.max_backoff)) again)
        ]
      ]
    ]

-- If the initial backoff is not longer than the maximum, the sleeps of a supervisor are these, in
-- their order, and no others: behind a start that fails the initial backoff, doubled for each start
-- that failed in a row before it, up to the maximum, and behind each check that finds a started
-- channel healthy 50 milliseconds. A start that succeeds begins the row of failures anew.
pub run_loop-doubled :
    (config : SupervisorConfig) (rounds : List Round)
    → config.initial_backoff ≤ config.max_backoff
    → waits (run_loop config rounds) ≡ doubled config 0 rounds
unfolding run_loop
run_loop-doubled config rounds le =
    let first : min (config.initial_backoff * 2 ^ 0) config.max_backoff ≡ config.initial_backoff =
      omega arith in
    ap (λ k. waits (round_loop config k rounds)) (sym first) ∙ round_loop-doubled config 0 rounds le
