-- ===== src/Heartbeat/Cron/Fields.antt =====
-- The values of a cron field (src/heartbeat/cron.cpp).
use ghostclaw.Base.{
  ◌||◌, ℕ, zero, suc, ◌+◌, ◌-◌, ◌≤◌, ◌≡◌, false, not, List, [], ◌∷◌, arith, ltb, null, inl, inr,
  Bool-cases, Option-cases, ltb→le, take, drop,
}
use ghostclaw.Base.Text.{Bytes, codes, equal, index_of, pieces}
use ghostclaw.Common.{ok, Result-cases, bind-ok, then-ok, guard}
use ghostclaw.Common.Fs.{trim, words}
use ghostclaw.Heartbeat.Cron.{
  int_max, is_positive, is_above, is_less, is_more, ℤ, pos, insert_value, range_loop, add_range,
  value_of, parse_int, both, step_range, add_step, add_dash, add_single, add_segment, segment_loop,
  parse_field, parse_fields, parse, CronExpression, normalize_expression,
}

-- Ascending, each value once, from `least` to `most`.
abbrev pub AscendsIn : ℕ → ℕ → List ℕ → Type 0
AscendsIn least most [] = Unit
AscendsIn least most (v ∷ values) = (least ≤ v) × (v ≤ most) × AscendsIn (suc v) most values

AscendsIn-lower :
    (a b most : ℕ) (values : List ℕ) → a ≤ b → AscendsIn b most values → AscendsIn a most values
AscendsIn-lower a b most [] h s = tt
AscendsIn-lower a b most (v ∷ values) h (x, y, s) = (omega arith, y, s)

insert_value-AscendsIn :
    (v least most : ℕ) (values : List ℕ)
    → least ≤ v
    → v ≤ most
    → AscendsIn least most values
    → AscendsIn least most (insert_value v values)
unfolding insert_value
insert_value-AscendsIn v least most [] l m s = (l, m, tt)
insert_value-AscendsIn v least most (w ∷ values) l m (x, y, s) =
    ground (arith, insert_value-AscendsIn v (suc w) most values)

range_loop-AscendsIn :
    (rounds value last step least most : ℕ) (values : List ℕ) {out : List ℕ}
    → least ≤ value
    → last ≤ most
    → AscendsIn least most values
    → range_loop rounds value last step values ≡ ok out
    → AscendsIn least most out
unfolding range_loop
range_loop-AscendsIn zero value last step least most values {out} l m s h =
    let same : values ≡ out = cc in rw (← same) s
range_loop-AscendsIn (suc rounds) value last step least most values {out} l m s h =
    elim (Bool-cases (ltb last value)) [
      | inl over ↦ let same : values ≡ out = ground (arith, over) in rw (← same) s
      | inr more ↦ elim (Bool-cases (ltb int_max (value + step))) [
        | inl undefined ↦ absurd (ground (arith, more, undefined))
        | inr fits ↦
            range_loop-AscendsIn rounds (value + step) last step least most
              (insert_value value values) (omega arith) m
              (insert_value-AscendsIn value least most values l
                (omega (arith, ltb→le last value more)) s)
              (ground (arith, more, fits))
      ]
    ]

module _ (least most : ℕ) (values : List ℕ) (s : AscendsIn least most values) where
  add_range-AscendsIn :
      (start last step : ℤ) {out : List ℕ}
      → add_range least most values start last step ≡ ok out
      → AscendsIn least most out
  unfolding add_range
  add_range-AscendsIn start last step {out} h =
      let (positive, ranged) =
        then-ok (guard (is_positive step) (codes "step must be positive")) _ h in
      let (inside, looped) =
        then-ok
          (guard (not (is_above start last || (is_less start least || is_more last most)))
            (codes "field range out of bounds"))
          _ ranged in
      let above : least ≤ value_of start = ground arith in
      let below : value_of last ≤ most = ground arith in
      range_loop-AscendsIn (suc (value_of last - value_of start)) (value_of start) (value_of last)
        (value_of step) least most values above below s looped

  add_step-AscendsIn :
      (segment : Bytes) (slash : ℕ) {out : List ℕ}
      → add_step least most values segment slash ≡ ok out
      → AscendsIn least most out
  unfolding add_step
  add_step-AscendsIn segment slash {out} h =
      let (step, parsed, then_range) = bind-ok (parse_int (trim (drop (slash + 1) segment))) _ h in
      let ((start, last), ranged, added) =
        bind-ok (step_range least most (trim (take slash segment))) _ then_range in
      add_range-AscendsIn start last step added

  add_dash-AscendsIn :
      (segment : Bytes) (dash : ℕ) {out : List ℕ}
      → add_dash least most values segment dash ≡ ok out
      → AscendsIn least most out
  unfolding add_dash
  add_dash-AscendsIn segment dash {out} h =
      let ((start, last), ranged, added) =
        bind-ok
          (both (parse_int (trim (take dash segment))) (parse_int (trim (drop (dash + 1) segment)))
            (codes "invalid range"))
          _ h in
      add_range-AscendsIn start last (pos 1) added

  add_single-AscendsIn :
      (segment : Bytes) {out : List ℕ}
      → add_single least most values segment ≡ ok out
      → AscendsIn least most out
  unfolding add_single
  add_single-AscendsIn segment {out} h = elim (Result-cases (parse_int segment)) [
    | inr (e, failed) ↦ absurd (ground (arith, failed))
    | inl (value, e) ↦
        let above : least ≤ value_of value = ground (arith, e) in
        let below : value_of value ≤ most = ground (arith, e) in
        let same : insert_value (value_of value) values ≡ out = ground (arith, e) in
        rw (← same) (insert_value-AscendsIn (value_of value) least most values above below s)
  ]

  add_segment-AscendsIn :
      (segment : Bytes) {out : List ℕ}
      → add_segment least most values segment ≡ ok out
      → AscendsIn least most out
  unfolding add_segment
  add_segment-AscendsIn segment {out} h = elim (Bool-cases (null segment)) [
    | inl nothing ↦ let same : values ≡ out = ground (arith, nothing) in rw (← same) s
    | inr something ↦ elim (Bool-cases (equal segment (codes "*"))) [
      | inl star ↦
          add_range-AscendsIn (pos least) (pos most) (pos 1) (ground (arith, something, star))
      | inr plain ↦ elim (Option-cases (index_of (codes "/") segment)) [
        | inr (slash, e) ↦ add_step-AscendsIn segment slash (ground (arith, something, plain, e))
        | inl no_slash ↦ elim (Option-cases (index_of (codes "-") segment)) [
          | inr (dash, e) ↦
              add_dash-AscendsIn segment dash (ground (arith, something, plain, no_slash, e))
          | inl no_dash ↦
              add_single-AscendsIn segment (ground (arith, something, plain, no_slash, no_dash))
        ]
      ]
    ]
  ]

segment_loop-AscendsIn :
    (least most : ℕ) (values : List ℕ) (segments : List Bytes) {out : List ℕ}
    → AscendsIn least most values
    → segment_loop least most values segments ≡ ok out
    → AscendsIn least most out
unfolding segment_loop
segment_loop-AscendsIn least most values [] {out} s h =
    let same : values ≡ out = cc in rw (← same) s
segment_loop-AscendsIn least most values (segment ∷ segments) {out} s h =
    elim (Result-cases (add_segment least most values (trim segment))) [
      | inr (e, failed) ↦ absurd (ground (arith, failed))
      | inl (values', e) ↦
          segment_loop-AscendsIn least most values' segments
            (add_segment-AscendsIn least most values s (trim segment) e) (ground (arith, e))
    ]

-- A field that parses has a value, and its values ascend, each once, between the field's bounds.
pub record IsField (least most : ℕ) (values : List ℕ) : Type 0 where
  pub has_value : null values ≡ false
  pub ascends : AscendsIn least most values

parse_field-IsField :
    (field : Bytes) (least most : ℕ) {values : List ℕ}
    → parse_field field least most ≡ ok values
    → IsField least most values
unfolding parse_field
parse_field-IsField field least most {values} h =
    let (given, rest) = then-ok (guard (not (null (trim field))) (codes "empty cron field")) _ h in
    let (out, looped, last) =
      bind-ok (segment_loop least most [] (pieces b',' [] (trim field))) _ rest in
    let same : out ≡ values = ground arith in
    rw (← same) (record {
      has_value = ground arith;
      ascends = segment_loop-AscendsIn least most [] (pieces b',' [] (trim field)) tt looped;
    })

pub record IsExpression (e : CronExpression) : Type 0 where
  pub minutes : IsField 0 59 e.minutes
  pub hours : IsField 0 23 e.hours
  pub days : IsField 1 31 e.days
  pub months : IsField 1 12 e.months
  pub weekdays : IsField 0 6 e.weekdays

parse_fields-IsExpression :
    (fields : List Bytes) {e : CronExpression} → parse_fields fields ≡ ok e → IsExpression e
unfolding parse_fields
parse_fields-IsExpression (a ∷ b ∷ c ∷ d ∷ f ∷ rest) {e} h =
    let (minutes, ha, h1) = bind-ok (parse_field a 0 59) _ h in
    let (hours, hb, h2) = bind-ok (parse_field b 0 23) _ h1 in
    let (days, hc, h3) = bind-ok (parse_field c 1 31) _ h2 in
    let (months, hd, h4) = bind-ok (parse_field d 1 12) _ h3 in
    let (weekdays, hf, h5) = bind-ok (parse_field f 0 6) _ h4 in
    let same : record {
      minutes = minutes;
      hours = hours;
      days = days;
      months = months;
      weekdays = weekdays;
    }
        ≡ e =
      cc in
    rw (← same) (record {
      minutes = parse_field-IsField a 0 59 ha;
      hours = parse_field-IsField b 0 23 hb;
      days = parse_field-IsField c 1 31 hc;
      months = parse_field-IsField d 1 12 hd;
      weekdays = parse_field-IsField f 0 6 hf;
    })
parse_fields-IsExpression [] h = cc
parse_fields-IsExpression (a ∷ []) h = cc
parse_fields-IsExpression (a ∷ b ∷ []) h = cc
parse_fields-IsExpression (a ∷ b ∷ c ∷ []) h = cc
parse_fields-IsExpression (a ∷ b ∷ c ∷ d ∷ []) h = cc

-- In an expression that parses, from any text in whose ranges no sum of two `int` overflows, each of
-- the five fields has a value, and its values ascend, each once, between the bounds of the field.
pub parse-IsExpression : (text : Bytes) (e : CronExpression) → parse text ≡ ok e → IsExpression e
unfolding parse
parse-IsExpression text e h = parse_fields-IsExpression (words [] (normalize_expression text)) h
