-- ===== src/Agent/ToolExecutor/Clearance.antt =====
-- Which calls run a tool (src/agent/tool_executor.cpp).
use mathlib.Core.Bool.{false≢true}
use ghostclaw.Base.{
  ℕ, ◌≤◌, ◌≡◌, ◌≢◌, ◌↔◌, refl, ap, sym, subst, Bool, true, false, ◌&&◌, not, [], ◌++◌, Option, none,
  some, arith, if◌then◌else◌, inl, inr, Bool-cases, Option-cases,
}
use ghostclaw.Base.Text.{Bytes, codes}
use ghostclaw.Common.{Result, ok, err, ◌>>◌, guard, require, if_ok, is_ok}
use ghostclaw.Security.ToolPolicy.{ToolPolicyPipeline, evaluate_tool, build_default_pipeline_steps}
use ghostclaw.Security.ToolPolicy.Names.{normalize_tool_name}
use ghostclaw.Security.ToolPolicy.Decide.{PassesAll, evaluate_tool_iff}
use ghostclaw.Security.Approval.{
  ApprovalManager, ApprovalDecision, allow_once, allow_always, authorize,
}
use ghostclaw.Sandbox.{should_sandbox, is_tool_allowed, resolve_runtime}
use ghostclaw.Sandbox.Runtime.{SandboxManager, ensure_runtime}
use ghostclaw.Agent.ToolExecutor.{
  Tool, ToolRegistry, ToolCallRequest, ToolContext, Dependencies, ExecutorState, Outside, get_tool,
  is_dangerous_tool, policy_request, policy_check, cooldown_check, sandbox_request, sandbox_check,
  fail_as, verdict, approval_request, approval_check, found_tool, cleared,
}

-- Where there is a pipeline, every layer of it lets the tool pass.
abbrev pub PolicyAllows : Option ToolPolicyPipeline → ToolCallRequest → ToolContext → Type 0
PolicyAllows none call ctx = Unit
PolicyAllows (some p) call ctx =
    (normalize_tool_name call.name ≢ [])
    × PassesAll (normalize_tool_name call.name)
        (build_default_pipeline_steps p (policy_request call ctx))

-- Where the session is to run in a container, the tool is allowed there, and the container is up.
abbrev pub SandboxAllows :
    {W : Type 0}
    → Outside W
    → Option (SandboxManager W)
    → ToolCallRequest
    → ToolContext
    → W
    → Type 0
SandboxAllows o none call ctx w = Unit
SandboxAllows o (some m) call ctx w =
    ctx.sandbox_enabled ≡ true
    → should_sandbox m.config (sandbox_request ctx) ≡ true
    → (is_tool_allowed m.config call.name ≡ true)
      × (is_ok (ensure_runtime o.host m (sandbox_request ctx) w).0 ≡ true)

abbrev pub NotHeldBack : ExecutorState → ℕ → Bytes → Type 0
NotHeldBack s now name = (until : ℕ) → s.cooldowns name ≡ some until → until ≤ now

-- A dangerous tool is allowed by the approval manager, if there is one.
abbrev pub Approved :
    {W : Type 0}
    → Outside W
    → ToolCallRequest
    → ToolContext
    → Tool W
    → Option ApprovalManager
    → W
    → Type 0
Approved o call ctx tool none w = Unit
Approved o call ctx tool (some m) w =
    is_dangerous_tool tool ≡ true
    → (authorize (o.exchange w) (o.writable w) m (approval_request call ctx tool)).1
      ≢ ApprovalDecision.deny

guard_iff : (b : Bool) (e : Bytes) → (guard b e ≡ ok tt) ↔ (b ≡ true)
guard_iff true e = (λ _. refl, λ _. refl)
guard_iff false e = (λ h. cc, λ h. cc)

policy_check_iff :
    (p : Option ToolPolicyPipeline) (call : ToolCallRequest) (ctx : ToolContext)
    → (policy_check p call ctx ≡ ok tt) ↔ PolicyAllows p call ctx
unfolding policy_check
policy_check_iff none call ctx = (λ _. tt, λ _. refl)
policy_check_iff (some p) call ctx =
    let decided = evaluate_tool_iff p call.name (policy_request call ctx) in
    let guarded = guard_iff (evaluate_tool p call.name (policy_request call ctx)).allowed _ in
    (λ h. decided.0 (guarded.0 h), λ h. guarded.1 (decided.1 h))

cooldown_check_iff :
    (s : ExecutorState) (now : ℕ) (name : Bytes)
    → (cooldown_check s now name ≡ ok tt) ↔ NotHeldBack s now name
unfolding cooldown_check
cooldown_check_iff s now name = elim (Option-cases (s.cooldowns name)) [
  | inl e ↦ (λ _ until h. absurd cc, λ _. ground (arith, e))
  | inr (t, e) ↦ (λ h until g. ground (arith, e, g), λ h. ground (arith, e, h t e))
]

fail_as_iff {ℓ} :
    {A S : Type ℓ} (what : Bytes) (r : Result A × S)
    → ((fail_as what r).0 ≡ ok tt) ↔ (is_ok r.0 ≡ true)
fail_as_iff what (ok a, w) = (λ _. refl, λ _. refl)
fail_as_iff what (err e, w) = (λ h. cc, λ h. cc)

verdict_iff : (v : ApprovalDecision) → (verdict v ≡ ok tt) ↔ (v ≢ ApprovalDecision.deny)
verdict_iff ApprovalDecision.deny = (λ h. cc, λ h. absurd (h refl))
verdict_iff allow_once = (λ _ e. cc, λ _. refl)
verdict_iff allow_always = (λ _ e. cc, λ _. refl)

-- A check that is left out unless both tests hold, and then needs one more test.
gate_iff {ℓ} :
    {S : Type ℓ} (a b c : Bool) (e : Bytes) (s : S) (r : Result (Unit {0}) × S)
    → ((if not (a && b) then (ok tt, s) else if not c then (err e, s) else r).0 ≡ ok tt)
      ↔ (a ≡ true → b ≡ true → (c ≡ true) × (r.0 ≡ ok tt))
gate_iff false b c e s r = (λ _ h. cc, λ _. refl)
gate_iff true false c e s r = (λ _ _ h. cc, λ _. refl)
gate_iff true true false e s r = (λ h. cc, λ h. absurd (false≢true (h refl refl).0))
gate_iff true true true e s r = (λ h _ _. (refl, h), λ h. (h refl refl).1)

then_iff :
    {T : Type 0} (asked : Result (Unit {0})) (t tool : T)
    → ((asked >> ok t) ≡ ok tool) ↔ ((t ≡ tool) × (asked ≡ ok tt))
then_iff (err e) t tool = (λ h. cc, λ (_, h). cc)
then_iff (ok _) t tool = (λ h. (cc, refl), λ (e, _). ap ok e)

module _ {W T : Type 0} where
  abbrev then_cooldown : Result (Unit {0}) × W → Result (Unit {0}) → T → Result T × W
  then_cooldown r c t = if_ok r (λ _ w. (c >> ok t, w))

  then_cooldown_iff :
      (r : Result (Unit {0}) × W) (c : Result (Unit {0})) (t tool : T)
      → ((then_cooldown r c t).0 ≡ ok tool) ↔ ((r.0 ≡ ok tt) × (c ≡ ok tt) × (t ≡ tool))
  then_cooldown_iff (err e, w) c t tool = (λ h. cc, λ h. cc)
  then_cooldown_iff (ok _, w) (err e) t tool = (λ h. cc, λ h. cc)
  then_cooldown_iff (ok _, w) (ok _) t tool = (λ h. (refl, refl, cc), λ (_, _, e). ap ok e)

  then_cooldown-world :
      (r : Result (Unit {0}) × W) (c : Result (Unit {0})) (t : T) → (then_cooldown r c t).1 ≡ r.1
  then_cooldown-world (err e, w) c t = refl
  then_cooldown-world (ok _, w) c t = refl

  abbrev chain :
      Result (Unit {0})
      → Option T
      → Bytes
      → (W → Result (Unit {0}) × W)
      → Result (Unit {0})
      → W
      → Result T × W
  chain p g m f c w = if_ok (p >> require g m, w) (λ t w0. then_cooldown (f w0) c t)

  chain_iff :
      (p : Result (Unit {0})) (g : Option T) (m : Bytes) (f : W → Result (Unit {0}) × W)
      (c : Result (Unit {0})) (w : W) (tool : T)
      → ((chain p g m f c w).0 ≡ ok tool)
        ↔ ((p ≡ ok tt) × (g ≡ some tool) × ((f w).0 ≡ ok tt) × (c ≡ ok tt))
  chain_iff (err e) g m f c w tool = (λ h. cc, λ h. cc)
  chain_iff (ok _) none m f c w tool = (λ h. cc, λ h. cc)
  chain_iff (ok _) (some t) m f c w tool =
      let inner = then_cooldown_iff (f w) c t tool in
      (
        λ h. let (r, cool, e) = inner.0 h in (refl, ap some e, r, cool),
        λ (_, e, r, cool). inner.1 (r, cool, cc),
      )

  chain-world :
      (p : Result (Unit {0})) (g : Option T) (m : Bytes) (f : W → Result (Unit {0}) × W)
      (c : Result (Unit {0})) (w : W) (tool : T)
      → (chain p g m f c w).0 ≡ ok tool
      → (chain p g m f c w).1 ≡ (f w).1
  chain-world (err e) g m f c w tool h = cc
  chain-world (ok _) none m f c w tool h = cc
  chain-world (ok _) (some t) m f c w tool h = then_cooldown-world (f w) c t

  module _ {A : Type 0} where
    abbrev last : Result T × W → (T → W → Result (Unit {0}) × A) → A → Result T × (A × W)
    last found ask a = elim found.0 [
      | err e ↦ (err e, (a, found.1))
      | ok t ↦ let asked = ask t found.1 in (asked.0 >> ok t, (asked.1, found.1))
    ]

    last_iff :
        (found : Result T × W) (ask : T → W → Result (Unit {0}) × A) (a : A) (tool : T)
        → ((last found ask a).0 ≡ ok tool) ↔ ((found.0 ≡ ok tool) × ((ask tool found.1).0 ≡ ok tt))
    last_iff (err e, w) ask a tool = (λ h. cc, λ (h, _). cc)
    last_iff (ok t, w) ask a tool =
        let iff = then_iff (ask t w).0 t tool in
        (
          λ h. let (e, allowed) = iff.0 h in (ap ok e, subst (λ k. (ask k w).0 ≡ ok tt) e allowed),
          λ (h, allowed).
              let e : tool ≡ t = cc in iff.1 (sym e, subst (λ k. (ask k w).0 ≡ ok tt) e allowed),
        )

module _ {W : Type 0} (o : Outside W) (call : ToolCallRequest) (ctx : ToolContext) where
  sandbox_check_iff :
      (sandbox : Option (SandboxManager W)) (w : W)
      → ((sandbox_check o sandbox call ctx w).0 ≡ ok tt) ↔ SandboxAllows o sandbox call ctx w
  unfolding sandbox_check resolve_runtime
  sandbox_check_iff none w = (λ _. tt, λ _. refl)
  sandbox_check_iff (some m) w =
      let brought =
        fail_as_iff (codes "Sandbox setup failed: ")
          (ensure_runtime o.host m (sandbox_request ctx) w) in
      let gate =
        gate_iff ctx.sandbox_enabled (should_sandbox m.config (sandbox_request ctx))
          (is_tool_allowed m.config call.name)
          (codes "Tool blocked by sandbox policy: " ++ call.name) w
          (fail_as (codes "Sandbox setup failed: ")
            (ensure_runtime o.host m (sandbox_request ctx) w)) in
      (
        λ h on inside. let (allowed, up) = gate.0 h on inside in (allowed, brought.0 up),
        λ h. gate.1 (λ on inside. let (allowed, up) = h on inside in (allowed, brought.1 up)),
      )

  approval_check_iff :
      (tool : Tool W) (approval : Option ApprovalManager) (w : W)
      → ((approval_check o call ctx tool approval w).0 ≡ ok tt)
        ↔ Approved o call ctx tool approval w
  unfolding approval_check
  approval_check_iff tool none w = (λ _. tt, λ _. refl)
  approval_check_iff tool (some m) w =
      let asked =
        verdict_iff
          (authorize (o.exchange w) (o.writable w) m (approval_request call ctx tool)).1 in
      elim (Bool-cases (is_dangerous_tool tool)) [
        | inl dangerous ↦ rw dangerous (λ h _. asked.0 h, λ h. asked.1 (h refl))
        | inr safe ↦ rw safe (λ _ e. absurd cc, λ _. refl)
      ]

module _ {W : Type 0} (o : Outside W) (d : Dependencies W) (registry : ToolRegistry W)
    (s : ExecutorState) (now : ℕ) (call : ToolCallRequest) (ctx : ToolContext) where
  -- The world behind the setup of the sandbox.
  abbrev pub set_up : W → W
  set_up w = (sandbox_check o d.sandbox call ctx w).1

  -- A call runs a tool exactly when every layer of the policy lets the tool pass, the tool is
  -- registered under the call's name, the sandbox allows it and is up where the session needs one,
  -- the name is not held back, and the tool is not dangerous or the approval manager does not deny
  -- its command.
  pub cleared_iff :
      (tool : Tool W) (w : W)
      → ((cleared o d registry s now call ctx w).0 ≡ ok tool) ↔ (
          PolicyAllows d.tool_policy call ctx
          × (get_tool registry call.name ≡ some tool)
          × SandboxAllows o d.sandbox call ctx w
          × NotHeldBack s now call.name
          × Approved o call ctx tool d.approval (set_up w))
  unfolding cleared found_tool
  cleared_iff tool w =
      let policy = policy_check_iff d.tool_policy call ctx in
      let sandbox = sandbox_check_iff o call ctx d.sandbox w in
      let cooldown = cooldown_check_iff s now call.name in
      let approval = approval_check_iff o call ctx tool d.approval (set_up w) in
      let missing = codes "Unknown tool: " ++ call.name in
      let setup = sandbox_check o d.sandbox call ctx in
      let checked = policy_check d.tool_policy call ctx in
      let registered = get_tool registry call.name in
      let cool = cooldown_check s now call.name in
      let first = chain_iff checked registered missing setup cool w tool in
      let world = chain-world checked registered missing setup cool w tool in
      let all =
        last_iff (chain checked registered missing setup cool w)
          (λ t v. approval_check o call ctx t d.approval v) d.approval tool in
      let holds : W → Type 0 = λ v. (approval_check o call ctx tool d.approval v).0 ≡ ok tt in
      (
        λ h.
            let (found, asked) = all.0 h in
            let (p, g, u, c) = first.0 found in
            (
              policy.0 p,
              g,
              sandbox.0 u,
              cooldown.0 c,
              approval.0 (subst holds (world found) asked),
            ),
        λ (p, g, u, c, a).
            let found = first.1 (policy.1 p, g, sandbox.1 u, cooldown.1 c) in
            all.1 (found, subst holds (sym (world found)) (approval.1 a)),
      )
