-- ===== src/Heartbeat/Cron/Range.antt =====
-- Which values a range with a step adds to a field (src/heartbeat/cron.cpp).
use ghostclaw.Base.{
  not, ◌≤◌, false, ℕ, zero, suc, ◌+◌, ◌-◌, ◌*◌, ◌<◌, ◌≡◌, ◌↔◌, ◌⊎◌, refl, true, ◌||◌, List, [], ◌∷◌,
  arith, ltb, ◌==◌, inl, inr, Bool-cases, ltb→lt,
}
use ghostclaw.Common.{ok, then-ok, guard}
use ghostclaw.Base.Text.{codes}
use ghostclaw.Heartbeat.Cron.{
  pos, int_max, is_positive, is_above, is_less, is_more, ℤ, insert_value, range_loop, add_range,
  value_of, contains_value,
}

contains-insert_value :
    (v x : ℕ) (values : List ℕ)
    → contains_value (insert_value v values) x ≡ (v == x || contains_value values x)
unfolding contains_value insert_value
contains-insert_value v x [] = refl
contains-insert_value v x (w ∷ values) = ground (arith, contains-insert_value v x values)

-- `x` is `value` or some steps behind it, and not behind `last`.
abbrev pub Reached : ℕ → ℕ → ℕ → ℕ → Type 0
Reached value last step x = (k : ℕ) × (x ≡ value + k * step) × (x ≤ last)

range_loop_adds :
    (rounds value last step x : ℕ) (values : List ℕ) {out : List ℕ}
    → (contains_value values x ≡ true) ⊎ (Reached value last step x)
    → 0 < step
    → last < value + rounds
    → range_loop rounds value last step values ≡ ok out
    → contains_value out x ≡ true
unfolding range_loop
range_loop_adds zero value last step x values {out} (inl old) positive end h =
    let same : values ≡ out = cc in rw (← same) old
range_loop_adds zero value last step x values (inr (k, at, le)) positive end h =
    absurd (grind arith)
range_loop_adds (suc rounds) value last step x values {out} held positive end h =
    elim (Bool-cases (ltb last value)) [
      | inl over ↦
          let same : values ≡ out = ground (arith, over) in
          elim held [
            | inl old ↦ rw (← same) old
            | inr (k, at, le) ↦ absurd (grind (arith, ltb→lt last value over))
          ]
      | inr more ↦ elim (Bool-cases (ltb int_max (value + step))) [
        | inl undefined ↦ absurd (ground (arith, more, undefined))
        | inr fits ↦
            range_loop_adds rounds (value + step) last step x (insert_value value values)
              (elim held [
                | inl old ↦ inl (ground (arith, contains-insert_value value x values, old))
                | inr (zero, at, le) ↦ inl (
                    let here : value ≡ x = omega arith in
                    ground (arith, contains-insert_value value x values, here))
                | inr (suc k, at, le) ↦ inr (k, grind arith, le)
              ])
              positive (omega arith) (ground (arith, more, fits))
      ]
    ]

range_loop_holds :
    (rounds value last step x : ℕ) (values : List ℕ) {out : List ℕ}
    → range_loop rounds value last step values ≡ ok out
    → contains_value out x ≡ true
    → (contains_value values x ≡ true) ⊎ (Reached value last step x)
unfolding range_loop
range_loop_holds zero value last step x values {out} looped h =
    let same : values ≡ out = cc in inl (rw same h)
range_loop_holds (suc rounds) value last step x values {out} looped h =
    elim (Bool-cases (ltb last value)) [
      | inl over ↦ let same : values ≡ out = ground (arith, over) in inl (rw same h)
      | inr more ↦ elim (Bool-cases (ltb int_max (value + step))) [
        | inl undefined ↦ absurd (ground (arith, more, undefined))
        | inr fits ↦
            let later =
              range_loop_holds rounds (value + step) last step x (insert_value value values)
                (ground (arith, more, fits)) h in
            elim later [
              | inl old ↦ elim (Bool-cases (value == x)) [
                | inl here ↦ inr (0, ground (arith, here), ground (arith, here, more))
                | inr there ↦ inl (ground (arith, contains-insert_value value x values, there, old))
              ]
              | inr (k, at, le) ↦ inr (suc k, grind arith, le)
            ]
      ]
    ]

-- No sum of the loop overflows where the end and one step more is an `int`.
range_loop_defined :
    (rounds value last step : ℕ) (values : List ℕ)
    → last + step ≤ int_max
    → (out : List ℕ) × (range_loop rounds value last step values ≡ ok out)
unfolding range_loop
range_loop_defined zero value last step values fits = (values, refl)
range_loop_defined (suc rounds) value last step values fits = elim (Bool-cases (ltb last value)) [
  | inl over ↦ (values, ground (arith, over))
  | inr more ↦
      let (out, looped) =
        range_loop_defined rounds (value + step) last step (insert_value value values) fits in
      let small : ltb int_max (value + step) ≡ false = ground (arith, more) in
      (out, ground (arith, more, small, looped))
]

-- A range that is accepted adds to the field exactly the values that are reached from its start by
-- steps, up to its end.
pub add_range_iff :
    (least most : ℕ) (values out : List ℕ) (start last step : ℤ) (x : ℕ)
    → add_range least most values start last step ≡ ok out
    → (contains_value out x ≡ true) ↔ (
        (contains_value values x ≡ true)
        ⊎ Reached (value_of start) (value_of last) (value_of step) x)
unfolding add_range
add_range_iff least most values out start last step x h =
    let (positive, ranged) =
      then-ok (guard (is_positive step) (codes "step must be positive")) _ h in
    let (inside, looped) =
      then-ok
        (guard (not (is_above start last || (is_less start least || is_more last most)))
          (codes "field range out of bounds"))
        _ ranged in
    let above_zero : 0 < value_of step = ground arith in
    let rounds = suc (value_of last - value_of start) in
    (
      λ held.
          range_loop_holds rounds (value_of start) (value_of last) (value_of step) x values looped
            held,
      λ either.
          range_loop_adds rounds (value_of start) (value_of last) (value_of step) x values either
            above_zero (omega arith) looped,
    )

-- A range whose step is at most 2147483588 is accepted if it lies between bounds of at most 59, so
-- only a longer step can overflow.
pub add_range_defined :
    (least most a b step : ℕ) (values : List ℕ)
    → 0 < step
    → step ≤ 2147483588
    → least ≤ a
    → a ≤ b
    → b ≤ most
    → most ≤ 59
    → (out : List ℕ) × (add_range least most values (pos a) (pos b) (pos step) ≡ ok out)
unfolding add_range
add_range_defined least most a b step values positive short above ordered below small =
    let (out, looped) = range_loop_defined (suc (b - a)) a b step values (omega arith) in
    (out, ground (arith, looped))
