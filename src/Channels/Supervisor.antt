-- ===== src/Channels/Supervisor.antt =====
-- src/channels/supervisor.cpp: a channel is started again where it fails. A run of `run_loop` is given
-- by what it reads: in each round the flag `stop_requested_`, the results of the channel's `start` and
-- of its health checks. Its result is what it does, in order.
pub mod Backoff
use ghostclaw.Base.{ℕ, ◌*◌, min, Bool, true, false, List, [], ◌∷◌, ◌++◌, if◌then◌else◌}
use ghostclaw.Common.{Result, ok, err}

pub record SupervisorConfig : Type 0 where
  pub initial_backoff : ℕ
  pub max_backoff : ℕ

-- `back_off` and `poll` both sleep, for the backoff and for 50 milliseconds.
pub data Action : Type 0 where
  on_message : Action
  start_channel : Action
  back_off : ℕ → Action
  health_check : Action
  poll : Action
  stop_channel : Action

pub record Round : Type 0 where
  -- the flag at the head of the loop
  pub stop_before : Bool
  pub start_status : Result (Unit {0})
  -- the flag behind the start
  pub stop_after : Bool
  -- the flag and the health of each check
  pub checks : List (Bool × Bool)

unfoldable pub watch : List (Bool × Bool) → List Action
watch [] = []
watch ((stop_requested, healthy) ∷ checks) =
    let rest = watch checks in
    if stop_requested then [] else health_check ∷ (if healthy then poll ∷ rest else [])

unfoldable pub round_loop : SupervisorConfig → ℕ → List Round → List Action
unfolding watch
round_loop config backoff [] = []
round_loop config backoff (r ∷ rounds) =
    let again = round_loop config (min (backoff * 2) config.max_backoff) rounds in
    let anew = round_loop config config.initial_backoff rounds in
    if r.stop_before
    then []
    else start_channel
      ∷ (if r.stop_after then [] else elim r.start_status [
        | err _ ↦ back_off backoff ∷ again
        | ok _ ↦ watch r.checks ++ stop_channel ∷ anew
      ])

unfoldable pub run_loop : SupervisorConfig → List Round → List Action
unfolding round_loop
run_loop config rounds = on_message ∷ round_loop config config.initial_backoff rounds

pub record ChannelSupervisor : Type 0 where
  pub running : Bool
  pub stop_requested : Bool

-- The second part tells whether a thread is started on `run_loop`.
unfoldable pub start : ChannelSupervisor → ChannelSupervisor × Bool
start s =
    if s.running then (s, false) else (record { running = true; stop_requested = false }, true)

-- The thread that is joined ends by the flag, and the channel is stopped.
unfoldable pub stop : ChannelSupervisor → ChannelSupervisor
stop s = record { running = false; stop_requested = true }
