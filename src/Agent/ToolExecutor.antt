-- ===== src/Agent/ToolExecutor.antt =====
-- src/agent/tool_executor.cpp: the checks that a call of a tool passes, and the counts of failures. The
-- calls of one `execute` run at the same time; each part that holds the mutex is a function of its
-- own, and `execute_call` is one call alone. `W` is the state of everything outside.
pub mod Clearance
pub mod Cooldown
use ghostclaw.Base.{
  ℕ, suc, ◌+◌, Bool, true, false, ◌&&◌, ◌||◌, not, List, [], ◌∷◌, ◌++◌, Option, none, some, ltb,
  leb, if◌then◌else◌, null,
}
use ghostclaw.Base.Text.{Bytes, codes, equal}
use ghostclaw.Common.{Result, ok, err, ◌>>◌, guard, require, if_ok}
use ghostclaw.Common.Fs.{trim, to_lower}
use ghostclaw.Security.ToolPolicy.{ToolPolicyPipeline, ToolPolicyRequest, evaluate_tool}
use ghostclaw.Security.ToolPolicy.Names.{ToolProfile, full, lookup, profile_from_string}
use ghostclaw.Security.Approval.{ApprovalManager, ApprovalRequest, ApprovalDecision, authorize}
use ghostclaw.Sandbox.{SandboxRequest, is_tool_allowed}
use ghostclaw.Sandbox.Runtime.{SandboxManager, Host, runtime_of, ensure_runtime}

abbrev pub ToolArgs : Type 0
ToolArgs = List (Bytes × Bytes)

pub record ToolResult : Type 0 where
  pub output : Bytes
  pub success : Bool
  pub truncated : Bool
  pub metadata : List (Bytes × Bytes)

pub record ToolContext : Type 0 where
  pub workspace_path : List Bytes
  pub session_id : Bytes
  pub agent_id : Bytes
  pub main_session_id : Bytes
  pub provider : Bytes
  pub tool_profile : Bytes
  pub channel_id : Bytes
  pub group_id : Bytes
  pub sandbox_enabled : Bool

pub record Tool (W : Type 0) : Type 0 where
  pub name : Bytes
  pub group : Bytes
  pub is_safe : Bool
  pub run : ToolArgs → ToolContext → W → Result ToolResult × W

pub record ToolRegistry (W : Type 0) : Type 0 where
  pub tools : List (Tool W)
  pub by_name : Bytes → Option (Tool W)

pub record ToolCallRequest : Type 0 where
  pub id : Bytes
  pub name : Bytes
  pub arguments : ToolArgs

pub record ToolCallResult : Type 0 where
  pub id : Bytes
  pub name : Bytes
  pub result : ToolResult

pub record Dependencies (W : Type 0) : Type 0 where
  pub tool_policy : Option ToolPolicyPipeline
  pub sandbox : Option (SandboxManager W)
  pub approval : Option ApprovalManager

-- The maps of the executor: a missing count is 0.
pub record ExecutorState : Type 0 where
  pub failure_counts : Bytes → ℕ
  pub cooldowns : Bytes → Option ℕ

abbrev pub set_at {ℓ} : {A : Type ℓ} → Bytes → A → (Bytes → A) → Bytes → A
set_at key value m k = if equal key k then value else m k

module _ {W : Type 0} where
  unfoldable pub register_tool : Tool W → ToolRegistry W → ToolRegistry W
  register_tool tool r = record {
    tools = r.tools ++ tool ∷ [];
    by_name = set_at (to_lower tool.name) (some tool) r.by_name;
  }

  unfoldable pub get_tool : ToolRegistry W → Bytes → Option (Tool W)
  get_tool r name = r.by_name (to_lower name)

  unfoldable pub set_tool_policy_pipeline :
      Option ToolPolicyPipeline → Dependencies W → Dependencies W
  set_tool_policy_pipeline tool_policy d = record d { tool_policy = tool_policy }

  unfoldable pub set_sandbox_manager : Option (SandboxManager W) → Dependencies W → Dependencies W
  set_sandbox_manager sandbox d = record d { sandbox = sandbox }

  unfoldable pub set_approval_manager : Option ApprovalManager → Dependencies W → Dependencies W
  set_approval_manager approval d = record d { approval = approval }

  unfoldable pub is_dangerous_tool : Tool W → Bool
  is_dangerous_tool tool =
      let group = to_lower tool.group in
      let name = to_lower tool.name in
      if not tool.is_safe
      then true
      else equal group (codes "runtime")
        || (equal name (codes "shell")
            || (equal name (codes "exec") || equal name (codes "process")))

  unfoldable pub approval_command_for_call : ToolCallRequest → Tool W → Bytes
  unfolding lookup
  approval_command_for_call call tool = elim (lookup (codes "command") call.arguments) [
    | none ↦ tool.name
    | some command ↦ if null (trim command) then tool.name else command
  ]

-- A profile that is not known leaves the default.
abbrev pub profile_or_full : Result ToolProfile → ToolProfile
profile_or_full (ok profile) = profile
profile_or_full (err _) = full

abbrev pub policy_request : ToolCallRequest → ToolContext → ToolPolicyRequest
policy_request call ctx = record {
  tool_name = call.name;
  profile = profile_or_full (profile_from_string ctx.tool_profile);
  provider = ctx.provider;
  agent_id = ctx.agent_id;
  channel_id = ctx.channel_id;
  group_id = ctx.group_id;
}

unfoldable pub policy_check :
    Option ToolPolicyPipeline → ToolCallRequest → ToolContext → Result (Unit {0})
policy_check none call ctx = ok tt
policy_check (some p) call ctx =
    let decision = evaluate_tool p call.name (policy_request call ctx) in
    guard decision.allowed (
      codes "Tool blocked by policy (" ++ (decision.blocked_by ++ (codes "): " ++ decision.reason)))

unfoldable pub cooldown_check : ExecutorState → ℕ → Bytes → Result (Unit {0})
cooldown_check s now name = elim (s.cooldowns name) [
  | none ↦ ok tt
  | some until ↦ guard (not (ltb now until)) (codes "Tool in cooldown: " ++ name)
]

abbrev pub sandbox_request : ToolContext → SandboxRequest
sandbox_request ctx = record {
  session_id = ctx.session_id;
  agent_id = ctx.agent_id;
  main_session_id = ctx.main_session_id;
  workspace_dir = ctx.workspace_path;
  agent_workspace_dir = ctx.workspace_path;
}

-- The error of a call, behind what it is an error of.
abbrev pub fail_as {ℓ κ} : {A : Type ℓ} {S : Type κ} → Bytes → Result A × S → Result (Unit {0}) × S
fail_as what (ok _, w) = (ok tt, w)
fail_as what (err e, w) = (err (what ++ e), w)

abbrev pub verdict : ApprovalDecision → Result (Unit {0})
verdict ApprovalDecision.deny = err (codes "Tool execution denied by approval policy")
verdict _ = ok tt

abbrev pub approval_request :
    {W : Type 0} → ToolCallRequest → ToolContext → Tool W → ApprovalRequest
approval_request call ctx tool = record {
  command = approval_command_for_call call tool;
  session_id = ctx.session_id;
  timeout = codes "120";
}

abbrev result_of : Result ToolResult → ToolResult
result_of (ok result) = result
result_of (err e) = record { output = e; success = false; truncated = false; metadata = [] }

abbrev call_result : ToolCallRequest → Result ToolResult → ToolCallResult
call_result call r = record { id = call.id; name = call.name; result = result_of r }

-- Three failures in a row hold a tool back for 30 seconds from the clock's time.
abbrev pub cooldown_time : ℕ
cooldown_time = 30000000000

unfoldable pub finish {ℓ} : {A : Type ℓ} → ExecutorState → Bytes → ℕ → Result A → ExecutorState
finish s name clock (ok _) = record s { failure_counts = set_at name 0 s.failure_counts }
finish s name clock (err _) =
    let count = suc (s.failure_counts name) in
    record {
      failure_counts = set_at name count s.failure_counts;
      cooldowns =
          if leb 3 count
          then set_at name (some (clock + cooldown_time)) s.cooldowns
          else s.cooldowns;
    }

-- What the executor reads of the world: the time, the user's answer over the approval socket, and
-- whether the approval store can be written.
pub record Outside (W : Type 0) : Type 0 where
  pub host : Host W
  pub clock : W → ℕ
  pub exchange : W → Bytes → Result Bytes
  pub writable : W → Bool

module _ {W : Type 0} (o : Outside W) where
  unfoldable pub sandbox_check :
      Option (SandboxManager W) → ToolCallRequest → ToolContext → W → Result (Unit {0}) × W
  sandbox_check none call ctx w = (ok tt, w)
  sandbox_check (some m) call ctx w =
      let request = sandbox_request ctx in
      if not (ctx.sandbox_enabled && (runtime_of o.host m request).enabled)
      then (ok tt, w)
      else if not (is_tool_allowed m.config call.name)
      then (err (codes "Tool blocked by sandbox policy: " ++ call.name), w)
      else fail_as (codes "Sandbox setup failed: ") (ensure_runtime o.host m request w)

  -- The manager remembers what the user allows always.
  unfoldable pub approval_check :
      ToolCallRequest
      → ToolContext
      → Tool W
      → Option ApprovalManager
      → W
      → Result (Unit {0}) × Option ApprovalManager
  unfolding is_dangerous_tool approval_command_for_call
  approval_check call ctx tool none w = (ok tt, none)
  approval_check call ctx tool (some m) w =
      if not (is_dangerous_tool tool)
      then (ok tt, some m)
      else let out = authorize (o.exchange w) (o.writable w) m (approval_request call ctx tool) in
        (verdict out.1, some out.0)

  module _ (d : Dependencies W) (registry : ToolRegistry W) (s : ExecutorState) (now : ℕ)
      (call : ToolCallRequest) (ctx : ToolContext) where
    -- The checks before the approval, in their order, and the tool that is called.
    unfoldable pub found_tool : W → Result (Tool W) × W
    unfolding policy_check get_tool sandbox_check cooldown_check
    found_tool w =
        if_ok
          (
            policy_check d.tool_policy call ctx
                >> require (get_tool registry call.name) (codes "Unknown tool: " ++ call.name),
            w,
          )
          (λ tool w0.
            if_ok (sandbox_check d.sandbox call ctx w0)
              (λ _ w1. (cooldown_check s now call.name >> ok tool, w1)))

    unfoldable pub cleared : W → Result (Tool W) × (Option ApprovalManager × W)
    unfolding found_tool approval_check
    cleared w = elim (found_tool w).0 [
      | err e ↦ (err e, (d.approval, (found_tool w).1))
      | ok tool ↦
          let asked = approval_check call ctx tool d.approval (found_tool w).1 in
          (asked.0 >> ok tool, (asked.1, (found_tool w).1))
    ]

    -- The result, the executor's maps and the approvals after the call, and the world.
    unfoldable pub execute_call :
        W → ToolCallResult × (ExecutorState × (Option ApprovalManager × W))
    unfolding cleared finish
    execute_call w = elim (cleared w).0 [
      | err e ↦ (call_result call (err e), (s, (cleared w).1))
      | ok tool ↦
          let ran = tool.run call.arguments ctx (cleared w).1.1 in
          (
            call_result call ran.0,
            (finish s call.name (o.clock ran.1) ran.0, ((cleared w).1.0, ran.1)),
          )
    ]
