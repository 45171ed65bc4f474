-- ===== src/Tests/Approved.antt =====
-- Approvals and the approval store at concrete inputs.
use ghostclaw.Base.{arith, ◌≡◌, ◌≢◌, ◌↔◌, ◌⊎◌, refl, true, false, [], ◌∷◌, ◌++◌}
use ghostclaw.Base.Text.{Bytes, codes, equal, mem, index_of, is_prefix}
use ghostclaw.Common.{Result, ok, err}
use ghostclaw.Common.Fs.{is_space, lower_byte, trim, to_lower}
use ghostclaw.Security.Approval.{
  ExecSecurity, full, allowlist, ExecAsk, on_miss, ApprovalDecision, allow_once, allow_always,
  ApprovalRequest, ApprovalManager, needs_approval, is_allowlisted, request, authorize, act_on,
  matches_allowlist, contains, normalize_text, sanitize_protocol_token, request_line, response_line,
  parse_response, approval_decision_from_string, load, save, add,
}
use ghostclaw.Security.Approval.Decide.{UserAllows, authorize_iff}
use ghostclaw.Security.Approval.Remember.{authorize_again}
use ghostclaw.Security.Approval.Store.{AreNormal, empty_store, load-save_two_lines}

abbrev manager : ApprovalManager
manager = record {
  policy = record { security = allowlist; ask = on_miss; allowlist = [] };
  store = empty_store;
}

abbrev ask_for : Bytes → ApprovalRequest
ask_for command = record { command = command; session_id = codes "s1"; timeout = codes "5000" }

abbrev says_always : Bytes → Result Bytes
says_always line = ok (codes "DECISION\tallow-always\n")

abbrev unreachable_socket : Bytes → Result Bytes
unreachable_socket line = err (codes "failed to connect approval socket")

authorize_iff_example :
    ((authorize unreachable_socket true manager (ask_for (codes "ls"))).1 ≢ ApprovalDecision.deny)
    ↔ ((manager.policy.security ≢ ExecSecurity.deny)
        × (((needs_approval manager (ask_for (codes "ls")) ≡ true)
              × UserAllows unreachable_socket (ask_for (codes "ls")))
            ⊎ ((needs_approval manager (ask_for (codes "ls")) ≡ false)
                × ((manager.policy.security ≡ full)
                    ⊎ (is_allowlisted manager (codes "ls") ≡ true)))))
authorize_iff_example = authorize_iff unreachable_socket true manager (ask_for (codes "ls"))

answered : (authorize says_always true manager (ask_for (codes "ls -l"))).1 ≡ allow_always
unfolding authorize needs_approval is_allowlisted matches_allowlist contains normalize_text trim
    to_lower is_space lower_byte mem request sanitize_protocol_token request_line parse_response
    response_line approval_decision_from_string equal act_on index_of is_prefix
answered = refl

same_command : normalize_text (codes " LS -l ") ≡ normalize_text (codes "ls -l")
unfolding normalize_text trim to_lower is_space lower_byte
same_command = refl

asks_on_miss : manager.policy.ask ≢ ExecAsk.always
asks_on_miss e = cc

authorize_again_example :
    authorize unreachable_socket false
      (authorize says_always true manager (ask_for (codes "ls -l"))).0
      (ask_for (codes " LS -l "))
    ≡ ((authorize says_always true manager (ask_for (codes "ls -l"))).0, allow_once)
authorize_again_example =
    authorize_again says_always unreachable_socket true false manager (ask_for (codes "ls -l"))
      (ask_for (codes " LS -l ")) answered same_command asks_on_miss

one_text : normalize_text (codes "a\nb") ≡ codes "a\nb"
unfolding normalize_text trim to_lower is_space lower_byte
one_text = refl

both_normal : AreNormal (codes "a" ∷ codes "b" ∷ [])
unfolding normalize_text trim to_lower is_space lower_byte
both_normal = (refl, refl, (refl, refl, tt))

load-save_two_lines_example :
    (load (save true (add empty_store (codes "a" ++ (b'\n' ∷ codes "b"))))).entries
    ≡ codes "a" ∷ codes "b" ∷ []
load-save_two_lines_example =
    load-save_two_lines (codes "a") (codes "b") one_text both_normal
      ((λ e. omega arith, tt), ((λ e. omega arith, tt), tt)) (λ e. ground arith)
