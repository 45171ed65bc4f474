-- ===== src/Security/ActionTracker/History.antt =====
-- The tracker against the full history of its actions (src/security/action_tracker.cpp).
use ghostclaw.Base.{
  ℕ, ◌-◌, ◌≤◌, ◌≡◌, refl, sym, ap, ◌∙◌, Bool, not, List, [], ◌∷◌, ◌++◌, ltb, length, keep,
  keep-append, arith,
}
use ghostclaw.Security.ActionTracker.{
  ActionTracker, hour, new_tracker, prune_locked, record_at, check_at, count_at,
}

abbrev pub within : ℕ → ℕ → Bool
within now a = not (ltb a (now - hour))

-- The actions of the hour before `now`.
abbrev pub recent : ℕ → List ℕ → List ℕ
recent now = keep (within now)

pub data Event : Type 0 where
  recorded : ℕ → Event
  checked : ℕ → Event
  counted : ℕ → Event

abbrev pub time_of : Event → ℕ
time_of (recorded t) = t
time_of (checked t) = t
time_of (counted t) = t

abbrev pub step : ActionTracker → Event → ActionTracker
step s (recorded t) = record_at s t
step s (checked t) = (check_at s t).0
step s (counted t) = (count_at s t).0

abbrev pub run : ActionTracker → List Event → ActionTracker
run s [] = s
run s (e ∷ es) = run (step s e) es

-- Every time that was recorded, in order, with nothing pruned.
abbrev pub history : List ℕ → List Event → List ℕ
history past [] = past
history past (recorded t ∷ es) = history (past ++ t ∷ []) es
history past (e ∷ es) = history past es

-- The clock does not run backwards: the events start at `from` or later, and end by `to`.
abbrev pub Ordered : ℕ → List Event → ℕ → Type 0
Ordered from [] to = from ≤ to
Ordered from (e ∷ es) to = (from ≤ time_of e) × Ordered (time_of e) es to

pub recent-recent : (a b : ℕ) (xs : List ℕ) → a ≤ b → recent b (recent a xs) ≡ recent b xs
recent-recent a b [] h = refl
recent-recent a b (x ∷ xs) h = ground (arith, recent-recent a b xs h)

-- The tracker holds what every later look at the history would see.
abbrev Tracks : ℕ → ActionTracker → List ℕ → Type 0
Tracks from s past = (now : ℕ) → from ≤ now → recent now s.actions ≡ recent now past

step-Tracks :
    (e : Event) (from : ℕ) (s : ActionTracker) (past : List ℕ)
    → from ≤ time_of e
    → Tracks from s past
    → Tracks (time_of e) (step s e) (history past (e ∷ []))
unfolding prune_locked record_at check_at count_at
step-Tracks (recorded t) from s past le h now later =
    keep-append (within now) (recent t s.actions) (t ∷ [])
    ∙ ap (λ k. k ++ recent now (t ∷ [])) (recent-recent t now s.actions later ∙ h now (omega arith))
    ∙ sym (keep-append (within now) past (t ∷ []))
step-Tracks (checked t) from s past le h now later =
    recent-recent t now s.actions later ∙ h now (omega arith)
step-Tracks (counted t) from s past le h now later =
    recent-recent t now s.actions later ∙ h now (omega arith)

run-Tracks :
    (es : List Event) (from now : ℕ) (s : ActionTracker) (past : List ℕ)
    → Ordered from es now
    → Tracks from s past
    → recent now (run s es).actions ≡ recent now (history past es)
run-Tracks [] from now s past o h = h now o
run-Tracks (recorded t ∷ es) from now s past (le, o) h =
    run-Tracks es t now _ _ o (step-Tracks (recorded t) from s past le h)
run-Tracks (checked t ∷ es) from now s past (le, o) h =
    run-Tracks es t now _ _ o (step-Tracks (checked t) from s past le h)
run-Tracks (counted t ∷ es) from now s past (le, o) h =
    run-Tracks es t now _ _ o (step-Tracks (counted t) from s past le h)

-- Whatever was recorded, checked and counted before, on a clock that does not run backwards, the
-- count at `now` is the number of all recorded actions that are at most an hour old.
pub count_at-run :
    (max now : ℕ) (es : List Event)
    → Ordered 0 es now
    → (count_at (run (new_tracker max) es) now).1 ≡ length (recent now (history [] es))
unfolding count_at
count_at-run max now es o = ap length (run-Tracks es 0 now (new_tracker max) [] o (λ n h. refl))
