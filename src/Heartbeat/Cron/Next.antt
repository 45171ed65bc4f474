-- ===== src/Heartbeat/Cron/Next.antt =====
-- The next occurrence is the first match (src/heartbeat/cron.cpp).
use ghostclaw.Base.{
  ℕ, zero, suc, ◌+◌, ◌≤◌, ◌<◌, ◌≡◌, true, false, arith, inl, inr, Bool-cases, subst,
}
use native.Mathlib.Decide.{ℕ_discrete}
use ghostclaw.Heartbeat.Cron.{
  CronExpression, Tm, matches, next_loop, next_occurrence, search_minutes,
}

module _ (local : ℕ → Tm) (e : CronExpression) where
  -- `found` is the first minute from `from` on that matches, or the last one of the search.
  pub record IsFirst (from limit found : ℕ) : Type 0 where
    pub starts : from ≤ found
    pub ends : found ≤ limit
    pub skips : (m : ℕ) → from ≤ m → m < found → matches e (local m) ≡ false
    pub hits : (found < limit) → matches e (local found) ≡ true

  next_loop-IsFirst : (left from : ℕ) → IsFirst from (from + left) (next_loop local e left from)
  unfolding next_loop
  next_loop-IsFirst zero from = record {
    starts = omega arith;
    ends = omega arith;
    skips = λ m le lt. absurd (omega arith);
    hits = λ lt. absurd (omega arith);
  }
  next_loop-IsFirst (suc left) from = elim (Bool-cases (matches e (local from))) [
    | inl here ↦
        let found : next_loop local e (suc left) from ≡ from = ground (arith, here) in
        rw found (record {
          starts = omega arith;
          ends = omega arith;
          skips = λ m le lt. absurd (omega arith);
          hits = λ lt. here;
        })
    | inr there ↦
        let later = next_loop-IsFirst left (from + 1) in
        let next : next_loop local e (suc left) from ≡ next_loop local e left (from + 1) =
          ground (arith, there) in
        rw next (record {
          starts = omega (arith, later.starts);
          ends = omega (arith, later.ends);
          skips = λ m le lt. elim (ℕ_discrete from m) [
            | yes at ↦ subst (λ k. matches e (local k) ≡ false) at there
            | no ne ↦ later.skips m (omega arith) lt
          ];
          hits = λ lt. later.hits (omega arith);
        })
  ]

  -- The result lies behind `after`, and no further than the end of the search, which is two years of
  -- 366 days; no minute between matches the expression, and the result matches it unless it is the
  -- end of the search.
  pub next_occurrence-IsFirst :
      (after : ℕ) → IsFirst (after + 1) (after + 1 + search_minutes) (next_occurrence local e after)
  unfolding next_occurrence
  next_occurrence-IsFirst after = next_loop-IsFirst search_minutes (after + 1)
