-- ===== src/Tests/Executed.antt =====
-- Calls of tools at concrete inputs.
use ghostclaw.Base.{ℕ, ◌+◌, ◌≡◌, ◌↔◌, refl, true, false, List, [], ◌∷◌, ◌++◌, none, some, arith}
use ghostclaw.Base.Text.{codes, equal}
use ghostclaw.Common.{ok, err}
use ghostclaw.Common.Fs.{to_lower, lower_byte}
use ghostclaw.Security.ToolPolicy.{new_pipeline}
use ghostclaw.Security.Approval.{ApprovalManager, ExecSecurity, ExecAsk}
use ghostclaw.Sandbox.{off, session, read_write}
use ghostclaw.Sandbox.Runtime.{SandboxManager}
use ghostclaw.Agent.ToolExecutor.{
  ToolContext, Tool, ToolRegistry, ToolCallRequest, Dependencies, ExecutorState, Outside,
  register_tool, get_tool, cleared, cooldown_check,
}
use ghostclaw.Agent.ToolExecutor.Clearance.{
  PolicyAllows, SandboxAllows, NotHeldBack, Approved, set_up, cleared_iff,
}
use ghostclaw.Agent.ToolExecutor.Cooldown.{
  Finished, finish_all, fail, cooldown_check-failures, other_spelling,
}

-- The world is the time.
abbrev shell : Tool ℕ
shell = record {
  name = codes "shell";
  group = codes "runtime";
  is_safe = false;
  run = λ args ctx w.
      (ok (record { output = []; success = true; truncated = false; metadata = [] }), w + 1);
}

abbrev registry : ToolRegistry ℕ
registry = register_tool shell (record { tools = []; by_name = λ _. none })

abbrev approvals : ApprovalManager
approvals = record {
  policy = record { security = ExecSecurity.full; ask = ExecAsk.off; allowlist = [] };
  store = record { entries = []; file = none };
}

abbrev sandboxes : SandboxManager ℕ
sandboxes = record {
  config = record {
    mode = off;
    scope = session;
    workspace_access = read_write;
    container_prefix = codes "gc-";
    workdir = codes "/workspace";
    tool_allow = [];
    tool_deny = [];
  };
  docker_runner = none;
}

abbrev outside : Outside ℕ
outside = record {
  host = record {
    short_hash_hex = λ _. codes "0";
    create_directories = λ _ w. (ok tt, w);
    create_args = λ _ _ _. [];
  };
  clock = λ w. w;
  exchange = λ _ _. err [];
  writable = λ _. true;
}

abbrev all_checks : Dependencies ℕ
all_checks = record {
  tool_policy = some new_pipeline;
  sandbox = some sandboxes;
  approval = some approvals;
}

abbrev fresh : ExecutorState
fresh = record { failure_counts = λ _. 0; cooldowns = λ _. none }

abbrev list_files : ToolCallRequest
list_files = record {
  id = codes "1";
  name = codes "Shell";
  arguments = (codes "command", codes "ls") ∷ [];
}

abbrev ctx : ToolContext
ctx = record {
  workspace_path = codes "w" ∷ [];
  session_id = codes "s";
  agent_id = [];
  main_session_id = [];
  provider = [];
  tool_profile = codes "full";
  channel_id = [];
  group_id = [];
  sandbox_enabled = true;
}

cleared_iff_example :
    ((cleared outside all_checks registry fresh 0 list_files ctx 0).0 ≡ ok shell) ↔ (
      PolicyAllows all_checks.tool_policy list_files ctx
      × (get_tool registry list_files.name ≡ some shell)
      × SandboxAllows outside all_checks.sandbox list_files ctx 0
      × NotHeldBack fresh 0 list_files.name
      × Approved outside list_files ctx shell all_checks.approval
          (set_up outside all_checks registry fresh 0 list_files ctx 0))
cleared_iff_example = cleared_iff outside all_checks registry fresh 0 list_files ctx shell 0

-- Between the failures of `shell` a call of `read` ends well.
abbrev history : List Finished
history =
    record { name = codes "shell"; clock = 1; result = fail (codes "no") }
    ∷ record { name = codes "read"; clock = 2; result = ok tt }
    ∷ record { name = codes "shell"; clock = 3; result = fail (codes "no") }
    ∷ record { name = codes "shell"; clock = 5; result = fail (codes "no") }
    ∷ []

cooldown_check-failures_example :
    cooldown_check (finish_all fresh history) 6 (codes "shell")
    ≡ err (codes "Tool in cooldown: " ++ codes "shell")
unfolding equal
cooldown_check-failures_example =
    cooldown_check-failures (codes "shell") fresh history [] 1 3 5 6 (codes "no") (codes "no")
      (codes "no") refl (omega arith)

same_lower : to_lower (codes "shell") ≡ to_lower (codes "Shell")
unfolding to_lower lower_byte
same_lower = refl

other_spelling_example :
    (get_tool registry (codes "Shell") ≡ get_tool registry (codes "shell"))
    × (cooldown_check (finish_all fresh history) 6 (codes "Shell")
        ≡ cooldown_check fresh 6 (codes "Shell"))
unfolding equal
other_spelling_example =
    other_spelling registry fresh history (codes "shell") (codes "Shell") 6 same_lower refl
