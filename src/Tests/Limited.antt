-- ===== src/Tests/Limited.antt =====
-- The rate limits at concrete inputs.
use ghostclaw.Base.{ℕ, ◌≤◌, List, [], ◌∷◌, arith, length}
use ghostclaw.Base.Text.{codes}
use ghostclaw.Security.ActionTracker.History.{Event, recorded, checked}
use ghostclaw.Sessions.SendPolicy.Limit.{Send, sends, new_policy, sends-le-max}

abbrev times : List ℕ
times = 0 ∷ 10 ∷ 3600000000011 ∷ []

abbrev events : List Event
events = recorded 5 ∷ checked 6 ∷ recorded 3600000000007 ∷ []

abbrev bursts : List Send
bursts =
    record { session_id = codes "s1"; now = 1 }
    ∷ record { session_id = codes "s1"; now = 2 }
    ∷ record { session_id = codes "s2"; now = 3 }
    ∷ []

sends-le-max_example :
    length (
      ghostclaw.Sessions.SendPolicy.Limit.recent 60 4
        (sends (new_policy 1 60) (λ k. []) bursts (codes "s1")))
    ≤ 1
sends-le-max_example =
    sends-le-max 1 60 4 bursts (codes "s1") (omega arith) (omega arith)
      (omega arith, (omega arith, (omega arith, omega arith)))
