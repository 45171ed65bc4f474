-- ===== src/Tests/Retried.antt =====
-- Retries, fallbacks and restarts at concrete inputs.
use ghostclaw.Base.{ℕ, ◌+◌, ◌-◌, ◌*◌, ◌^◌, ◌≡◌, refl, true, false, [], ◌∷◌, none, arith}
use ghostclaw.Base.Text.{codes}
use ghostclaw.Common.{ok, err}
use ghostclaw.Providers.Reliable.{Provider, ReliableProvider, chat_with_system}
use ghostclaw.Providers.Reliable.Schedule.{run_schedule, tries_of, chat_with_system-run_schedule}
use ghostclaw.Providers.Reliable.Waiting.{Waited, chat_with_system-Waited}
use ghostclaw.Channels.Supervisor.{SupervisorConfig, Round, run_loop}
use ghostclaw.Channels.Supervisor.Backoff.{waits, doubled, run_loop-doubled}

-- The world is the time slept; the primary provider fails, and the fallback answers late.
abbrev sleep_for : ℕ → ℕ → ℕ
sleep_for ms slept = slept + ms

abbrev failing : Provider ℕ Unit
failing = record {
  chat_with_system = λ system_prompt message model temperature w. (err (codes "down"), w);
  warmup = λ w. (err (codes "down"), w);
}

abbrev answering : Provider ℕ Unit
answering = record {
  chat_with_system = λ system_prompt message model temperature w. (ok message, w);
  warmup = λ w. (ok tt, w);
}

abbrev reliable : ReliableProvider ℕ Unit
reliable = record {
  primary = failing;
  fallbacks = answering ∷ [];
  max_retries = 2;
  backoff_ms = 100;
}

chat_with_system-run_schedule_example :
    chat_with_system sleep_for reliable none (codes "hi") [] tt 0
    ≡ run_schedule sleep_for
        (tries_of sleep_for reliable none (codes "hi") [] tt (failing ∷ answering ∷ []))
        []
        0
chat_with_system-run_schedule_example =
    chat_with_system-run_schedule sleep_for reliable none (codes "hi") [] tt 0

chat_with_system-Waited_example :
    Waited
      (λ w. w)
      0
      (2 * (100 * (2 ^ 2 - 1)))
      (chat_with_system sleep_for reliable none (codes "hi") [] tt 0)
chat_with_system-Waited_example =
    chat_with_system-Waited (λ w. w) sleep_for (λ ms w. refl) reliable none (codes "hi") [] tt 0
      ((λ w. refl), ((λ w. refl), tt)) (omega arith)

abbrev config : SupervisorConfig
config = record { initial_backoff = 2000; max_backoff = 60000 }

abbrev failed : Round
failed = record {
  stop_before = false;
  start_status = err (codes "offline");
  stop_after = false;
  checks = [];
}

abbrev served : Round
served = record {
  stop_before = false;
  start_status = ok tt;
  stop_after = false;
  checks = (false, true) ∷ (false, false) ∷ [];
}

run_loop-doubled_example :
    waits (run_loop config (failed ∷ failed ∷ served ∷ failed ∷ []))
    ≡ doubled config 0 (failed ∷ failed ∷ served ∷ failed ∷ [])
run_loop-doubled_example =
    run_loop-doubled config (failed ∷ failed ∷ served ∷ failed ∷ []) (omega arith)
