-- ===== src/Security/Approval/Decide.antt =====
-- What `ApprovalManager::authorize` allows (src/security/approval.cpp).
use ghostclaw.Base.{
  ◌≡◌, ◌≢◌, ◌↔◌, ◌⊎◌, refl, Bool, true, false, ◌&&◌, not, arith, if◌then◌else◌, inl, inr,
}
use ghostclaw.Base.Text.{Bytes}
use ghostclaw.Common.{Result, ok, err}
use ghostclaw.Security.Approval.{
  ExecSecurity, allowlist, full, ExecAsk, off, on_miss, always, ApprovalDecision, allow_once,
  allow_always, ApprovalRequest, ApprovalManager, is_allowlisted, asks, needs_approval, request,
  act_on, authorize, is_deny, is_allowlist, is_off,
}

-- The user was asked, and allowed the command.
abbrev pub UserAllows : (Bytes → Result Bytes) → ApprovalRequest → Type 0
UserAllows exchange r =
    (request exchange r ≡ ok allow_once) ⊎ (request exchange r ≡ ok allow_always)

act_on_iff :
    (writable : Bool) (m : ApprovalManager) (command : Bytes) (answer : Result ApprovalDecision)
    → ((act_on writable m command answer).1 ≢ ApprovalDecision.deny)
      ↔ ((answer ≡ ok allow_once) ⊎ (answer ≡ ok allow_always))
unfolding act_on
act_on_iff writable m command (err _) = ground arith
act_on_iff writable m command (ok allow_once) = (λ _. inl refl, λ _ e. cc)
act_on_iff writable m command (ok allow_always) = (λ _. inr refl, λ _ e. cc)
act_on_iff writable m command (ok ApprovalDecision.deny) =
    (λ h. absurd (h refl), λ h e. ground arith)

-- The tests of `authorize` on their own: `answered` is what the user's answer gives.
abbrev verdict : ExecSecurity → ExecAsk → Bool → ApprovalDecision → ApprovalDecision
verdict security ask allowlisted answered =
    if is_deny security
    then ApprovalDecision.deny
    else if (is_allowlist security && not allowlisted) && is_off ask
    then ApprovalDecision.deny
    else if not (asks security ask allowlisted)
    then (if is_allowlist security && not allowlisted then ApprovalDecision.deny else allow_once)
    else answered

verdict_iff :
    (security : ExecSecurity) (ask : ExecAsk) (allowlisted : Bool) (answered : ApprovalDecision)
    → (verdict security ask allowlisted answered ≢ ApprovalDecision.deny) ↔ (
        (security ≢ ExecSecurity.deny)
        × (((asks security ask allowlisted ≡ true) × (answered ≢ ApprovalDecision.deny))
            ⊎ ((asks security ask allowlisted ≡ false)
                × ((security ≡ full) ⊎ (allowlisted ≡ true)))))
verdict_iff ExecSecurity.deny ask a d = (λ h. absurd (h refl), λ (h, _). absurd (h refl))
verdict_iff allowlist off true d = ground arith
verdict_iff allowlist off false d = ground arith
verdict_iff allowlist on_miss true d = ground arith
verdict_iff allowlist on_miss false d = ground arith
verdict_iff allowlist always a d = ground arith
verdict_iff full off a d = ground arith
verdict_iff full on_miss true d = ground arith
verdict_iff full on_miss false d = ground arith
verdict_iff full always a d = ground arith

module _ (exchange : Bytes → Result Bytes) (writable : Bool) (m : ApprovalManager)
    (r : ApprovalRequest) where
  abbrev answer : ApprovalManager × ApprovalDecision
  answer = act_on writable m r.command (request exchange r)

  authorize-verdict :
      (authorize exchange writable m r).1
      ≡ verdict m.policy.security m.policy.ask (is_allowlisted m r.command) answer.1
  unfolding authorize
  authorize-verdict = ground arith

  -- A command runs exactly when commands are not denied altogether and either the user is to be
  -- asked and allows it, or nobody is to be asked and it is allowlisted or needs no allowlist.
  pub authorize_iff : ((authorize exchange writable m r).1 ≢ ApprovalDecision.deny) ↔ (
      (m.policy.security ≢ ExecSecurity.deny)
      × (((needs_approval m r ≡ true) × UserAllows exchange r)
          ⊎ ((needs_approval m r ≡ false)
              × ((m.policy.security ≡ full) ⊎ (is_allowlisted m r.command ≡ true)))))
  unfolding needs_approval
  authorize_iff =
      let by_user = act_on_iff writable m r.command (request exchange r) in
      let by_tests =
        verdict_iff m.policy.security m.policy.ask (is_allowlisted m r.command) answer.1 in
      rw authorize-verdict (
        (λ h.
            let (open_, way) = by_tests.0 h in
            (open_, elim way [ inl (q, d) ↦ inl (q, by_user.0 d) | inr w ↦ inr w ])),
        (λ (open_, way).
            by_tests.1 (open_, elim way [ inl (q, u) ↦ inl (q, by_user.1 u) | inr w ↦ inr w ])),
      )
