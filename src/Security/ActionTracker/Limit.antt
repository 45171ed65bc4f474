-- ===== src/Security/ActionTracker/Limit.antt =====
-- The hourly limit that check and record give together (src/security/action_tracker.cpp).
use ghostclaw.Base.{
  ℕ, ◌≤◌, ◌<◌, ◌≡◌, refl, sym, ap, ◌∙◌, List, [], ◌∷◌, ◌++◌, ltb, length, keep-append, length-keep,
  if◌then◌else◌, arith, length-append, Bool-cases, inl, inr,
}
use ghostclaw.Security.ActionTracker.{ActionTracker, new_tracker, prune_locked, attempt}
use ghostclaw.Security.ActionTracker.History.{within, recent, recent-recent}

-- The times in `past` and those of the attempts that the tracker allows.
abbrev pub attempts : ActionTracker → List ℕ → List ℕ → List ℕ
attempts s past [] = past
attempts s past (t ∷ ts) =
    let (s', allowed) = attempt s t in attempts s' (if allowed then past ++ t ∷ [] else past) ts

-- The limit stated on the full history: an action is allowed while fewer than `max` of the
-- allowed ones are at most an hour old.
abbrev pub limited : ℕ → List ℕ → List ℕ → List ℕ
limited max past [] = past
limited max past (t ∷ ts) =
    limited max (if ltb (length (recent t past)) max then past ++ t ∷ [] else past) ts

abbrev pub Ascending : ℕ → List ℕ → ℕ → Type 0
Ascending from [] to = from ≤ to
Ascending from (t ∷ ts) to = (from ≤ t) × Ascending t ts to

record Agrees (max from : ℕ) (s : ActionTracker) (past : List ℕ) : Type 0 where
  limit : s.max_per_hour ≡ max
  views : (now : ℕ) → from ≤ now → recent now s.actions ≡ recent now past

recent-concat :
    (now t : ℕ) (xs : List ℕ) → recent now (xs ++ t ∷ []) ≡ recent now xs ++ recent now (t ∷ [])
recent-concat now t xs = keep-append (within now) xs (t ∷ [])

module _ (max from t : ℕ) (s : ActionTracker) (past : List ℕ) (le : from ≤ t)
    (h : Agrees max from s past) where
  attempt-allowed : (attempt s t).1 ≡ ltb (length (recent t past)) max
  unfolding attempt prune_locked
  attempt-allowed =
      let e : length (recent t s.actions) ≡ length (recent t past) = ap length (h.views t le) in
      ground (arith, e, h.limit)

  pruned-Agrees : (now : ℕ) → t ≤ now → recent now (recent t s.actions) ≡ recent now past
  pruned-Agrees now later = recent-recent t now s.actions later ∙ h.views now (omega arith)

  attempt-Agrees : Agrees max t (attempt s t).0 (if (attempt s t).1 then past ++ t ∷ [] else past)
  unfolding attempt prune_locked
  attempt-Agrees = elim (Bool-cases (ltb (length (recent t s.actions)) s.max_per_hour)) [
    | inl granted ↦ rw granted (record {
      limit = h.limit;
      views = λ now later.
          recent-concat now t (recent t (recent t s.actions))
          ∙ ap (λ k. k ++ recent now (t ∷ []))
              (recent-recent t now (recent t s.actions) later ∙ pruned-Agrees now later)
          ∙ sym (recent-concat now t past);
    })
    | inr refused ↦ rw refused (record { limit = h.limit; views = pruned-Agrees })
  ]

attempts-Agrees :
    (max from to : ℕ) (s : ActionTracker) (past ts : List ℕ)
    → Ascending from ts to
    → Agrees max from s past
    → attempts s past ts ≡ limited max past ts
attempts-Agrees max from to s past [] o h = refl
attempts-Agrees max from to s past (t ∷ ts) (le, o) h =
    attempts-Agrees max t to _ _ ts o (attempt-Agrees max from t s past le h)
    ∙ ap (λ b. limited max (if b then past ++ t ∷ [] else past) ts)
        (attempt-allowed max from t s past le h)

pub attempts-limited :
    (max to : ℕ) (ts : List ℕ)
    → Ascending 0 ts to
    → attempts (new_tracker max) [] ts ≡ limited max [] ts
attempts-limited max to ts o =
    attempts-Agrees max 0 to (new_tracker max) [] ts o
      (record { limit = refl; views = λ n h. refl })

-- What is recent later was recent before, as far as it is old.
length-recent : (a b : ℕ) (xs : List ℕ) → a ≤ b → length (recent b xs) ≤ length (recent a xs)
length-recent a b xs h =
    omega (arith, ap length (recent-recent a b xs h), length-keep (within b) (recent a xs))

limited-le :
    (max from now : ℕ) (past ts : List ℕ)
    → Ascending from ts now
    → ((n : ℕ) → from ≤ n → length (recent n past) ≤ max)
    → length (recent now (limited max past ts)) ≤ max
limited-le max from now past [] o h = h now o
limited-le max from now past (t ∷ ts) (le, o) h =
    elim (Bool-cases (ltb (length (recent t past)) max)) [
      | inl granted ↦ rw granted (
          limited-le max t now (past ++ t ∷ []) ts o λ n later.
            let room : length (recent t past) < max = ground arith in
            let one : length (recent n (t ∷ [])) ≤ 1 = length-keep (within n) (t ∷ []) in
            omega (
              arith,
              ap length (recent-concat n t past),
              length-append (recent n past) (recent n (t ∷ [])),
              length-recent t n past later,
            ))
      | inr refused ↦ rw refused (limited-le max t now past ts o λ n later. h n (omega arith))
    ]

-- On a clock that does not run backwards, the hour before the end of a run of attempts holds at
-- most `max` actions that the tracker allowed.
pub attempts-le-max :
    (max now : ℕ) (ts : List ℕ)
    → Ascending 0 ts now
    → length (recent now (attempts (new_tracker max) [] ts)) ≤ max
attempts-le-max max now ts o =
    rw (attempts-limited max now ts o) (limited-le max 0 now [] ts o (λ n h. omega arith))
