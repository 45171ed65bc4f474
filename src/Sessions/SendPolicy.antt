-- ===== src/Sessions/SendPolicy.antt =====
-- src/sessions/send_policy.cpp: at most so many sends of a session in a sliding window. A time is
-- the clock's count of nanoseconds. The map's `operator[]` makes an empty queue for a new key, so
-- the map is a function from keys to queues.
pub mod Limit
use ghostclaw.Base.{
  ℕ, ◌+◌, ◌-◌, ◌*◌, Bool, true, false, ◌||◌, List, [], ◌∷◌, ◌++◌, ltb, leb, ◌==◌, length,
  if◌then◌else◌, null,
}
use ghostclaw.Base.Text.{Bytes, codes, equal}
use ghostclaw.Common.Fs.{trim}

pub record SessionSendPolicy : Type 0 where
  pub max_events : ℕ
  -- seconds; a window of 0 stands for every window that is not positive
  pub window : ℕ
  pub events_by_session : Bytes → List ℕ

abbrev pub nanoseconds : ℕ → ℕ
nanoseconds s = s * 1000000000

-- Pops from the front while the front lies before the cutoff.
unfoldable pub pop_before : ℕ → List ℕ → List ℕ
pop_before cutoff [] = []
pop_before cutoff (e ∷ events) =
    let rest = pop_before cutoff events in if ltb e cutoff then rest else e ∷ events

unfoldable pub prune_locked : SessionSendPolicy → List ℕ → ℕ → List ℕ
unfolding pop_before
prune_locked p events now =
    if p.window == 0 then [] else pop_before (now - nanoseconds p.window) events

unfoldable pub session_key : Bytes → Bytes
session_key session_id = let key = trim session_id in if null key then codes "default" else key

abbrev pub update : (Bytes → List ℕ) → Bytes → List ℕ → Bytes → List ℕ
update m key events k = if equal k key then events else m k

abbrev pub set_events : SessionSendPolicy → Bytes → List ℕ → SessionSendPolicy
set_events p key events = record p { events_by_session = update p.events_by_session key events }

unfoldable pub allow : SessionSendPolicy → Bytes → ℕ → SessionSendPolicy × Bool
allow p session_id now =
    if p.max_events == 0 || p.window == 0
    then (p, true)
    else let key = session_key session_id in
      let events = prune_locked p (p.events_by_session key) now in
      if leb p.max_events (length events)
      then (set_events p key events, false)
      else (set_events p key (events ++ now ∷ []), true)

unfoldable pub clear : SessionSendPolicy → Bytes → SessionSendPolicy
clear p session_id = set_events p (session_key session_id) []

unfoldable pub queued_in_window : SessionSendPolicy → Bytes → ℕ → ℕ
queued_in_window p session_id now =
    length (prune_locked p (p.events_by_session (session_key session_id)) now)
