-- ===== src/Tests/Scheduled.antt =====
-- Cron expressions at concrete inputs.
use ghostclaw.Base.{ℕ, ◌+◌, ◌≡◌, refl, List, [], ◌∷◌}
use ghostclaw.Base.Text.{codes, pieces, equal, index_of}
use ghostclaw.Common.{ok, err}
use ghostclaw.Common.Fs.{trim, to_lower, words}
use ghostclaw.Heartbeat.Cron.{
  CronExpression, Tm, pos, parse, overflow, add_range, next_occurrence, search_minutes,
}
use ghostclaw.Heartbeat.Cron.Fields.{IsExpression, parse-IsExpression}
use ghostclaw.Heartbeat.Cron.Next.{IsFirst, next_occurrence-IsFirst}

abbrev quarters : List ℕ
quarters = 0 ∷ 15 ∷ 30 ∷ 45 ∷ []

abbrev expression : CronExpression
expression = record {
  minutes = 5 ∷ [];
  hours = 1 ∷ 3 ∷ [];
  days = 2 ∷ [];
  months = 12 ∷ [];
  weekdays = 0 ∷ 1 ∷ [];
}

parsed : parse (codes "5 1-3/2 2 12 1,0") ≡ ok expression
unfolding parse words equal to_lower trim pieces index_of
parsed = refl

parse-IsExpression_example : IsExpression expression
parse-IsExpression_example = parse-IsExpression (codes "5 1-3/2 2 12 1,0") expression parsed

every_quarter : add_range 0 59 [] (pos 0) (pos 59) (pos 15) ≡ ok quarters
unfolding add_range
every_quarter = refl

too_long_step : parse (codes "0 0 */2147483647 * *") ≡ err overflow
unfolding parse overflow words equal to_lower trim pieces index_of
too_long_step = refl

abbrev first_hour : ℕ → Tm
first_hour m = record { tm_min = m; tm_hour = 1; tm_mday = 2; tm_mon = 11; tm_wday = 0 }

next_occurrence-IsFirst_example :
    IsFirst first_hour expression 3 (3 + search_minutes) (next_occurrence first_hour expression 2)
next_occurrence-IsFirst_example = next_occurrence-IsFirst first_hour expression 2
