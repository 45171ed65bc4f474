-- ===== src/Heartbeat/Cron.antt =====
-- src/heartbeat/cron.cpp: the fields of a cron expression and its next occurrence. A time is a
-- number of minutes, and `local` is `localtime_r` at the begin of a minute.
pub mod Integers
pub mod Fields
pub mod Range
pub mod Next
use ghostclaw.Base.{
  ℕ, zero, suc, ◌+◌, ◌-◌, ◌*◌, Bool, true, false, ◌&&◌, ◌||◌, not, List, [], ◌∷◌, ◌++◌, Option,
  none, some, ltb, leb, ◌==◌, if◌then◌else◌, null, any, all, take, drop,
}
use ghostclaw.Base.Text.{Bytes, codes, equal, index_of, pieces}
use ghostclaw.Common.{Result, ok, err, ◌>>=◌, ◌>>◌, guard, is_ok}
use ghostclaw.Common.Fs.{trim, to_lower, words}
pub use Integers.*

-- std::set<int>::insert: ascending, each value once
unfoldable pub insert_value : ℕ → List ℕ → List ℕ
insert_value value [] = value ∷ []
insert_value value (v ∷ values) =
    if ltb value v
    then value ∷ v ∷ values
    else if value == v
    then v ∷ values
    else v ∷ insert_value value values

-- A run whose sum of two `int` leaves their range: C++ gives it no meaning. The program makes no such
-- message; with it the model tells these runs from all others.
unfoldable pub overflow : Bytes
overflow = codes "undefined: the sum of two int overflows"

abbrev pub int_max : ℕ
int_max = 2147483647

-- The loop `value += step`, on the rounds that are left; a positive step takes no more rounds than
-- there are values. The sum is made behind each value, the last one too.
unfoldable pub range_loop : ℕ → ℕ → ℕ → ℕ → List ℕ → Result (List ℕ)
unfolding insert_value overflow
range_loop zero value last step values = ok values
range_loop (suc rounds) value last step values =
    let rest = range_loop rounds (value + step) last step (insert_value value values) in
    if ltb last value then ok values else if ltb int_max (value + step) then err overflow else rest

unfoldable pub add_range : ℕ → ℕ → List ℕ → ℤ → ℤ → ℤ → Result (List ℕ)
unfolding range_loop
add_range least most values start last step = do
  guard (is_positive step) (codes "step must be positive")
  guard (not (is_above start last || (is_less start least || is_more last most)))
      (codes "field range out of bounds")
  range_loop (suc (value_of last - value_of start)) (value_of start) (value_of last) (value_of step)
      values

-- An error of one of two numbers is replaced by a message for both.
abbrev pub both : Result ℤ → Result ℤ → Bytes → Result (ℤ × ℤ)
both (ok a) (ok b) message = ok (a, b)
both _ _ message = err message

-- The range before the slash of a step.
unfoldable pub step_range : ℕ → ℕ → Bytes → Result (ℤ × ℤ)
unfolding parse_int
step_range least most base =
    if equal base (codes "*") || null base
    then ok (pos least, pos most)
    else elim (index_of (codes "-") base) [
      | some dash ↦
          both (parse_int (trim (take dash base))) (parse_int (trim (drop (dash + 1) base)))
            (codes "invalid step range")
      | none ↦ parse_int base >>= (λ start. ok (start, pos most))
    ]

unfoldable pub add_step : ℕ → ℕ → List ℕ → Bytes → ℕ → Result (List ℕ)
unfolding step_range
add_step least most values segment slash = do
  step ← parse_int (trim (drop (slash + 1) segment))
  (start, last) ← step_range least most (trim (take slash segment))
  add_range least most values start last step

unfoldable pub add_dash : ℕ → ℕ → List ℕ → Bytes → ℕ → Result (List ℕ)
add_dash least most values segment dash = do
  (start, last) ←
      both (parse_int (trim (take dash segment))) (parse_int (trim (drop (dash + 1) segment)))
        (codes "invalid range")
  add_range least most values start last (pos 1)

unfoldable pub add_single : ℕ → ℕ → List ℕ → Bytes → Result (List ℕ)
add_single least most values segment = do
  value ← parse_int segment
  guard (not (is_less value least || is_more value most)) (codes "field value out of bounds")
  ok (insert_value (value_of value) values)

unfoldable pub add_segment : ℕ → ℕ → List ℕ → Bytes → Result (List ℕ)
unfolding add_step add_dash add_single add_range
add_segment least most values segment =
    if null segment
    then ok values
    else if equal segment (codes "*")
    then add_range least most values (pos least) (pos most) (pos 1)
    else elim (index_of (codes "/") segment) [
      | some slash ↦ add_step least most values segment slash
      | none ↦ elim (index_of (codes "-") segment) [
        | some dash ↦ add_dash least most values segment dash
        | none ↦ add_single least most values segment
      ]
    ]

unfoldable pub segment_loop : ℕ → ℕ → List ℕ → List Bytes → Result (List ℕ)
unfolding add_segment
segment_loop least most values [] = ok values
segment_loop least most values (segment ∷ segments) =
    elim (add_segment least most values (trim segment)) [
      | err e ↦ err e
      | ok values' ↦ segment_loop least most values' segments
    ]

unfoldable pub parse_field : Bytes → ℕ → ℕ → Result (List ℕ)
unfolding segment_loop
parse_field raw least most = do
  let field = trim raw
  guard (not (null field)) (codes "empty cron field")
  values ← segment_loop least most [] (pieces b',' [] field)
  guard (not (null values)) (codes "no values in field")
  ok values

pub record CronExpression : Type 0 where
  pub minutes : List ℕ
  pub hours : List ℕ
  pub days : List ℕ
  pub months : List ℕ
  pub weekdays : List ℕ

unfoldable pub normalize_expression : Bytes → Bytes
normalize_expression raw =
    let expression = to_lower (trim raw) in
    if equal expression (codes "@hourly")
    then codes "0 * * * *"
    else if equal expression (codes "@daily")
    then codes "0 0 * * *"
    else if equal expression (codes "@weekly")
    then codes "0 0 * * 0"
    else if equal expression (codes "@monthly")
    then codes "0 0 1 * *"
    else expression

unfoldable pub parse_fields : List Bytes → Result CronExpression
unfolding parse_field
parse_fields (minute ∷ hour ∷ day ∷ month ∷ weekday ∷ rest) = do
  minutes ← parse_field minute 0 59
  hours ← parse_field hour 0 23
  days ← parse_field day 1 31
  months ← parse_field month 1 12
  weekdays ← parse_field weekday 0 6
  ok (record {
    minutes = minutes;
    hours = hours;
    days = days;
    months = months;
    weekdays = weekdays;
  })
parse_fields _ = err (codes "cron expression must have 5 fields")

unfoldable pub parse : Bytes → Result CronExpression
unfolding parse_fields normalize_expression
parse expression = parse_fields (words [] (normalize_expression expression))

-- The fields of `std::tm` that are read.
pub record Tm : Type 0 where
  pub tm_min : ℕ
  pub tm_hour : ℕ
  pub tm_mday : ℕ
  pub tm_mon : ℕ
  pub tm_wday : ℕ

unfoldable pub contains_value : List ℕ → ℕ → Bool
contains_value values value = any (λ v. v == value) values

unfoldable pub matches : CronExpression → Tm → Bool
unfolding contains_value
matches e t =
    contains_value e.minutes t.tm_min
    && (contains_value e.hours t.tm_hour
        && (contains_value e.days t.tm_mday
            && (contains_value e.months (t.tm_mon + 1) && contains_value e.weekdays t.tm_wday)))

-- two years of 366 days, in minutes
unfoldable pub search_minutes : ℕ
search_minutes = 24 * 366 * 2 * 60

module _ (local : ℕ → Tm) where
  -- The loop `while (candidate < limit)`, on the minutes that are left.
  unfoldable pub next_loop : CronExpression → ℕ → ℕ → ℕ
  unfolding matches
  next_loop e zero candidate = candidate
  next_loop e (suc left) candidate = elim (matches e (local candidate)) [
    | true ↦ candidate
    | false ↦ next_loop e left (candidate + 1)
  ]

  -- `after` is cut down to its minute.
  unfoldable pub next_occurrence : CronExpression → ℕ → ℕ
  unfolding next_loop search_minutes
  next_occurrence e after = next_loop e search_minutes (after + 1)
