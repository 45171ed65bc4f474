-- ===== src/Security/ActionTracker.antt =====
-- src/security/action_tracker.cpp: the actions of the last hour. A time is the clock's count of
-- nanoseconds; `-` stops at 0, and no time lies before 0, so a cutoff below 0 cuts off nothing too.
pub mod History
pub mod Limit
use ghostclaw.Base.{
  ℕ, ◌+◌, ◌-◌, ◌*◌, Bool, true, false, not, List, [], ◌∷◌, ◌++◌, ltb, length, keep, if◌then◌else◌,
}

pub record ActionTracker : Type 0 where
  pub actions : List ℕ
  pub max_per_hour : ℕ

abbrev pub hour : ℕ
hour = 3600 * 1000000000

abbrev pub new_tracker : ℕ → ActionTracker
new_tracker max_per_hour = record { actions = []; max_per_hour = max_per_hour }

-- `remove_if` takes out what is older than the cutoff.
unfoldable pub prune_locked : ActionTracker → ℕ → ActionTracker
prune_locked t now =
    let cutoff = now - hour in record t { actions = keep (λ a. not (ltb a cutoff)) t.actions }

unfoldable pub record_at : ActionTracker → ℕ → ActionTracker
unfolding prune_locked
record_at t now =
    let pruned = prune_locked t now in record pruned { actions = pruned.actions ++ now ∷ [] }

unfoldable pub check_at : ActionTracker → ℕ → ActionTracker × Bool
unfolding prune_locked
check_at t now =
    let pruned = prune_locked t now in (pruned, ltb (length pruned.actions) pruned.max_per_hour)

unfoldable pub count_at : ActionTracker → ℕ → ActionTracker × ℕ
unfolding prune_locked
count_at t now = let pruned = prune_locked t now in (pruned, length pruned.actions)

-- The two calls that a tool makes, `check_rate_limit` and behind it `record_action`, with no time
-- between them (`execute` of src/tools/builtin/shell.cpp runs the command between them).
unfoldable pub attempt : ActionTracker → ℕ → ActionTracker × Bool
unfolding check_at record_at
attempt t now =
    let (checked, allowed) = check_at t now in
    if allowed then (record_at checked now, true) else (checked, false)
