-- ===== src/Security/ToolPolicy/Decide.antt =====
-- What the pipeline allows (`evaluate_tool` of src/security/tool_policy_pipeline.cpp).
use mathlib.Core.Bool.{false≢true}
use ghostclaw.Base.{
  sym, ◌∙◌, ◌≡◌, ◌≢◌, ◌↔◌, ◌⊎◌, refl, true, false, List, [], ◌∷◌, ◌++◌, Option, none, some, arith,
  inl, inr, Bool-cases, Option-cases, null, any,
}
use ghostclaw.Base.Text.{Bytes}
use ghostclaw.Security.ToolPolicy.Names.{normalize_tool_name, matches_pattern}
use ghostclaw.Security.ToolPolicy.{
  ToolPolicy, ToolPolicyPipeline, ToolPolicyPipelineStep, ToolPolicyRequest, expand_entries,
  first_match, deny_reason, allow_reason, or_else, refusal, passed, run_steps, blocked,
  build_default_pipeline_steps, evaluate_tool,
}

-- Some entry matches the tool.
abbrev pub Listed : Bytes → List Bytes → Type 0
Listed tool entries = any (λ entry. matches_pattern tool entry) entries ≡ true

-- No deny entry matches, and there is no allow entry or one that matches.
abbrev pub Passes : Bytes → Option ToolPolicy → Type 0
Passes tool none = Unit
Passes tool (some policy) =
    (¬ Listed tool (expand_entries policy.deny))
    × ((expand_entries policy.allow ≡ []) ⊎ Listed tool (expand_entries policy.allow))

abbrev pub PassesAll : Bytes → List ToolPolicyPipelineStep → Type 0
PassesAll tool [] = Unit
PassesAll tool (step ∷ steps) = Passes tool step.policy × PassesAll tool steps

first_match-none_iff :
    (tool : Bytes) (entries : List Bytes)
    → (first_match tool entries ≡ none) ↔ (¬ Listed tool entries)
unfolding first_match
first_match-none_iff tool [] = (λ h e. cc, λ h. refl)
first_match-none_iff tool (entry ∷ entries) =
    let later = first_match-none_iff tool entries in
    elim (Bool-cases (matches_pattern tool entry)) [
      | inl here ↦ rw here (λ e. cc, λ h. absurd (h refl))
      | inr there ↦ rw there later
    ]

null_iff {ℓ} : {A : Type ℓ} (xs : List A) → (null xs ≡ true) ↔ (xs ≡ [])
null_iff [] = (λ h. refl, λ h. refl)
null_iff (x ∷ xs) = (λ h. cc, λ h. cc)

some_ne_none {ℓ} : {A : Type ℓ} (a : A) → some a ≢ none
some_ne_none a e = cc

deny_reason-none_iff : (o : Option Bytes) → (deny_reason o ≡ none) ↔ (o ≡ none)
unfolding deny_reason
deny_reason-none_iff none = (λ h. refl, λ h. refl)
deny_reason-none_iff (some e) = (λ h. absurd (some_ne_none _ h), λ h. absurd (some_ne_none _ h))

allow_reason-none_iff :
    (tool : Bytes) (allow : List Bytes)
    → (allow_reason tool allow ≡ none) ↔ ((allow ≡ []) ⊎ Listed tool allow)
unfolding allow_reason
allow_reason-none_iff tool [] = (λ h. inl refl, λ h. refl)
allow_reason-none_iff tool (x ∷ xs) =
    elim (Bool-cases (any (λ entry. matches_pattern tool entry) (x ∷ xs))) [
      | inl listed ↦ rw listed (λ h. inr refl, λ h. refl)
      | inr unlisted ↦
          rw unlisted (λ h. absurd (some_ne_none _ h), λ h. elim h [ inl e ↦ cc | inr e ↦ cc ])
    ]

or_else-none_iff : (a b : Option Bytes) → (or_else a b ≡ none) ↔ ((a ≡ none) × (b ≡ none))
or_else-none_iff none b = (λ h. (refl, h), λ (_, h). h)
or_else-none_iff (some a) b = (λ h. absurd (some_ne_none _ h), λ (h, _). absurd (some_ne_none _ h))

refusal-none_iff :
    (tool : Bytes) (policy : Option ToolPolicy) → (refusal tool policy ≡ none) ↔ Passes tool policy
unfolding refusal
refusal-none_iff tool none = (λ h. tt, λ h. refl)
refusal-none_iff tool (some policy) =
    let both =
      or_else-none_iff (deny_reason (first_match tool (expand_entries policy.deny)))
        (allow_reason tool (expand_entries policy.allow)) in
    let reason = deny_reason-none_iff (first_match tool (expand_entries policy.deny)) in
    let denied = first_match-none_iff tool (expand_entries policy.deny) in
    let allowed = allow_reason-none_iff tool (expand_entries policy.allow) in
    (
      λ h. let (d, a) = both.0 h in (denied.0 (reason.0 d), allowed.0 a),
      λ (d, a). both.1 (reason.1 (denied.1 d), allowed.1 a),
    )

run_steps_iff :
    (tool : Bytes) (trace : List Bytes) (steps : List ToolPolicyPipelineStep)
    → ((run_steps tool trace steps).allowed ≡ true) ↔ PassesAll tool steps
unfolding run_steps blocked
run_steps_iff tool trace [] = (λ h. tt, λ h. refl)
run_steps_iff tool trace (step ∷ steps) =
    let rest = run_steps_iff tool (trace ++ passed step step.policy) steps in
    let here = refusal-none_iff tool step.policy in
    elim (Option-cases (refusal tool step.policy)) [
      | inl pass ↦
          let same : (run_steps tool trace (step ∷ steps)).allowed
              ≡ (run_steps tool (trace ++ passed step step.policy) steps).allowed =
            ground (arith, pass) in
          (λ h. (here.0 pass, rest.0 (sym same ∙ h)), λ (_, h). same ∙ rest.1 h)
      | inr (why, stop) ↦
          let same : (run_steps tool trace (step ∷ steps)).allowed ≡ false = ground (arith, stop) in
          (
            λ h. absurd (false≢true (sym same ∙ h)),
            λ (h, _). absurd (some_ne_none why (sym stop ∙ here.1 h)),
          )
    ]

-- A tool is allowed exactly when its normalized name is not empty and every layer that has a
-- policy lets it pass.
pub evaluate_tool_iff :
    (p : ToolPolicyPipeline) (name : Bytes) (r : ToolPolicyRequest)
    → ((evaluate_tool p name r).allowed ≡ true) ↔ (
        (normalize_tool_name name ≢ [])
        × PassesAll (normalize_tool_name name) (build_default_pipeline_steps p r))
unfolding evaluate_tool
evaluate_tool_iff p name r =
    let iff = run_steps_iff (normalize_tool_name name) [] (build_default_pipeline_steps p r) in
    let empty = null_iff (normalize_tool_name name) in
    elim (Bool-cases (null (normalize_tool_name name))) [
      | inl none_left ↦
          rw none_left
            (λ h. absurd (unfold blocked in false≢true h), λ (h, _). absurd (h (empty.0 none_left)))
      | inr some_left ↦
          rw some_left
            (λ h. (λ e. false≢true (sym some_left ∙ empty.1 e), iff.0 h), λ (_, h). iff.1 h)
    ]
