-- ===== src/Agent/ToolExecutor/Cooldown.antt =====
-- When a tool is held back (src/agent/tool_executor.cpp).
use ghostclaw.Base.{
  ℕ, suc, ◌+◌, ◌≤◌, ◌<◌, ◌≡◌, refl, ap, sym, subst, ◌∙◌, true, false, List, [], ◌∷◌, ◌++◌, some,
  arith, leb, le→leb, inl, inr, Bool-cases, keep,
}
use ghostclaw.Base.Text.{Bytes, codes, equal, equal_iff, equal_refl}
use ghostclaw.Common.{Result, ok, err}
use ghostclaw.Common.Fs.{to_lower}
use ghostclaw.Agent.ToolExecutor.{
  ToolRegistry, ExecutorState, get_tool, cooldown_check, cooldown_time, finish,
}

-- A call that has run its tool: its name, the clock's time then, and the result.
pub record Finished : Type 0 where
  pub name : Bytes
  pub clock : ℕ
  pub result : Result (Unit {0})

abbrev pub finish_all : ExecutorState → List Finished → ExecutorState
finish_all s [] = s
finish_all s (f ∷ fs) = finish_all (finish s f.name f.clock f.result) fs

-- The calls of one name.
abbrev pub of_name : Bytes → List Finished → List Finished
of_name name fs = keep (λ f. equal f.name name) fs

abbrev pub fail : Bytes → Result (Unit {0})
fail e = err e

abbrev Agree : Bytes → ExecutorState → ExecutorState → Type 0
Agree name s s' =
    (s.failure_counts name ≡ s'.failure_counts name) × (s.cooldowns name ≡ s'.cooldowns name)

module _ (name : Bytes) where
  finish-other :
      (s s' : ExecutorState) (f : Finished)
      → equal f.name name ≡ false
      → Agree name s s'
      → Agree name (finish s f.name f.clock f.result) s'
  unfolding finish
  finish-other s s' f other (c, t) = ground (arith, other, c, t)

  finish-same :
      (s s' : ExecutorState) (clock : ℕ) (result : Result (Unit {0}))
      → Agree name s s'
      → Agree name (finish s name clock result) (finish s' name clock result)
  unfolding finish
  finish-same s s' clock (ok _) (c, t) = rw (equal_refl name) (refl, t)
  finish-same s s' clock (err _) (c, t) =
      rw (equal_refl name) (ground (arith, c, t, equal_refl name))

  finish_all-of_name :
      (fs : List Finished) (s s' : ExecutorState)
      → Agree name s s'
      → Agree name (finish_all s fs) (finish_all s' (of_name name fs))
  finish_all-of_name [] s s' a = a
  finish_all-of_name (f ∷ fs) s s' a = elim (Bool-cases (equal f.name name)) [
    | inl same ↦
        let e : f.name ≡ name = (equal_iff f.name name).0 same in
        let next =
          subst (λ k. Agree name (finish s k f.clock f.result) (finish s' k f.clock f.result))
            (sym e) (finish-same s s' f.clock f.result a) in
        rw same (
          finish_all-of_name fs (finish s f.name f.clock f.result)
            (finish s' f.name f.clock f.result) next)
    | inr other ↦
        rw other (
          finish_all-of_name fs (finish s f.name f.clock f.result) s' (finish-other s s' f other a))
  ]

  finish_all-append :
      (s : ExecutorState) (xs ys : List Finished)
      → finish_all s (xs ++ ys) ≡ finish_all (finish_all s xs) ys
  finish_all-append s [] ys = refl
  finish_all-append s (x ∷ xs) ys = finish_all-append (finish s x.name x.clock x.result) xs ys

  abbrev fail_at : ℕ → Bytes → ExecutorState → ExecutorState
  fail_at clock e s = finish s name clock (fail e)

  count-fail_at :
      (s : ExecutorState) (clock : ℕ) (e : Bytes)
      → (fail_at clock e s).failure_counts name ≡ suc (s.failure_counts name)
  unfolding finish
  count-fail_at s clock e = rw (equal_refl name) refl

  third-fail_at :
      (s : ExecutorState) (clock : ℕ) (e : Bytes)
      → 2 ≤ s.failure_counts name
      → (fail_at clock e s).cooldowns name ≡ some (clock + cooldown_time)
  unfolding finish
  third-fail_at s clock e enough =
      let three : leb 3 (suc (s.failure_counts name)) ≡ true =
        le→leb 3 (suc (s.failure_counts name)) (omega arith) in
      rw (three, equal_refl name) refl

  -- From any state, three failures hold the tool back.
  held_back :
      (s : ExecutorState) (ta tb tc : ℕ) (ea eb ec : Bytes)
      → (finish (finish (finish s name ta (fail ea)) name tb (fail eb)) name tc (fail ec)).cooldowns
          name
        ≡ some (tc + cooldown_time)
  unfolding finish
  held_back s ta tb tc ea eb ec =
      let one = count-fail_at s ta ea in
      let two = count-fail_at (fail_at ta ea s) tb eb in
      third-fail_at (fail_at tb eb (fail_at ta ea s)) tc ec (omega arith)

  -- Whatever calls of other names have finished in between, a name whose last three calls have
  -- failed is refused for 30 seconds from the time of the last failure.
  pub cooldown_check-failures :
      (s : ExecutorState) (fs pre : List Finished) (ta tb tc now : ℕ) (ea eb ec : Bytes)
      → of_name name fs
        ≡ pre
          ++ (record { name = name; clock = ta; result = fail ea }
              ∷ record { name = name; clock = tb; result = fail eb }
              ∷ record { name = name; clock = tc; result = fail ec }
              ∷ [])
      → now < tc + cooldown_time
      → cooldown_check (finish_all s fs) now name ≡ err (codes "Tool in cooldown: " ++ name)
  unfolding cooldown_check
  cooldown_check-failures s fs pre ta tb tc now ea eb ec shape early =
      let agree = finish_all-of_name fs s s (refl, refl) in
      let last = held_back (finish_all s pre) ta tb tc ea eb ec in
      let held : (finish_all s fs).cooldowns name ≡ some (tc + cooldown_time) =
        agree.1
        ∙ ap (λ k. (finish_all s k).cooldowns name) shape
        ∙ ap (λ k. k.cooldowns name) (finish_all-append s pre _)
        ∙ last in
      rw (cooldown_check, held) (ground (arith, early))

-- Calls of one spelling of a name do not hold back another: it gets the same tool, and is refused
-- only as it was before those calls, however many of them have failed.
pub other_spelling :
    {W : Type 0} (registry : ToolRegistry W) (s : ExecutorState) (fs : List Finished) (a b : Bytes)
    (now : ℕ)
    → to_lower a ≡ to_lower b
    → of_name b fs ≡ []
    → (get_tool registry b ≡ get_tool registry a)
      × (cooldown_check (finish_all s fs) now b ≡ cooldown_check s now b)
unfolding get_tool cooldown_check
other_spelling registry s fs a b now same none_of_b =
    let agree = finish_all-of_name b fs s s (refl, refl) in
    let kept : (finish_all s fs).cooldowns b ≡ s.cooldowns b =
      agree.1 ∙ ap (λ k. (finish_all s k).cooldowns b) none_of_b in
    (ap registry.by_name (sym same), rw (cooldown_check, kept) refl)
