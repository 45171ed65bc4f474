-- ===== src/Security/Approval/Names.antt =====
-- The names of the approval's levels and answers (src/security/approval.cpp).
use ghostclaw.Base.{◌||◌, ◌++◌, if◌then◌else◌}
use ghostclaw.Base.Text.{Bytes, codes, equal}
use ghostclaw.Common.{Result, ok, err}
use ghostclaw.Security.Approval.{
  ExecSecurity, allowlist, full, ExecAsk, off, on_miss, always, ApprovalDecision, allow_once,
  allow_always, normalize_text,
}

unfoldable pub approval_decision_to_string : ApprovalDecision → Bytes
approval_decision_to_string allow_once = codes "allow-once"
approval_decision_to_string allow_always = codes "allow-always"
approval_decision_to_string ApprovalDecision.deny = codes "deny"

unfoldable pub exec_security_from_string : Bytes → Result ExecSecurity
unfolding normalize_text
exec_security_from_string value =
    let normalized = normalize_text value in
    if equal normalized (codes "deny")
    then ok ExecSecurity.deny
    else if equal normalized (codes "allowlist")
    then ok allowlist
    else if equal normalized (codes "full")
    then ok full
    else err (codes "unknown ExecSecurity: " ++ value)

unfoldable pub exec_ask_from_string : Bytes → Result ExecAsk
unfolding normalize_text
exec_ask_from_string value =
    let normalized = normalize_text value in
    if equal normalized (codes "off")
    then ok off
    else if equal normalized (codes "on-miss")
        || (equal normalized (codes "on_miss") || equal normalized (codes "onmiss"))
    then ok on_miss
    else if equal normalized (codes "always")
    then ok always
    else err (codes "unknown ExecAsk: " ++ value)

unfoldable pub exec_security_to_string : ExecSecurity → Bytes
exec_security_to_string ExecSecurity.deny = codes "deny"
exec_security_to_string allowlist = codes "allowlist"
exec_security_to_string full = codes "full"

unfoldable pub exec_ask_to_string : ExecAsk → Bytes
exec_ask_to_string off = codes "off"
exec_ask_to_string on_miss = codes "on-miss"
exec_ask_to_string always = codes "always"
