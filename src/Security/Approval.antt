-- ===== src/Security/Approval.antt =====
-- src/security/approval.cpp: whether a command runs, and what is remembered of the user's answer.
-- The socket and the file system are not modelled: `exchange` is what the approval socket returns
-- for a request line, or why the exchange failed, and `writable` tells whether the store's file
-- can be written.
pub mod Names
pub mod Store
pub mod Decide
pub mod Remember
use ghostclaw.Base.{
  ℕ, Bool, true, false, ◌&&◌, ◌||◌, not, List, [], ◌∷◌, ◌++◌, Option, none, some, ◌==◌,
  if◌then◌else◌, null, length, take, drop, reverse,
}
use ghostclaw.Base.Lines.{unlines}
use ghostclaw.Base.Text.{Bytes, codes, equal, mem, index_of, is_prefix, lines}
use ghostclaw.Common.{Result, ok, err, ◌>>=◌, ◌>>◌, guard}
use ghostclaw.Common.Fs.{trim, to_lower}
use ghostclaw.Security.Glob.{has_glob_chars, glob_to_regex, regex_match}

pub data ExecSecurity : Type 0 where
  deny allowlist full : ExecSecurity

pub data ExecAsk : Type 0 where
  off on_miss always : ExecAsk

pub data ApprovalDecision : Type 0 where
  allow_once allow_always deny : ApprovalDecision

pub record ApprovalRequest : Type 0 where
  pub command : Bytes
  pub session_id : Bytes
  -- the decimal print of `timeout.count()`
  pub timeout : Bytes

pub record ApprovalPolicy : Type 0 where
  pub security : ExecSecurity
  pub ask : ExecAsk
  pub allowlist : List Bytes

unfoldable pub normalize_text : Bytes → Bytes
normalize_text value = to_lower (trim value)

-- The text behind the last `/`.
unfoldable pub base_name : Bytes → Bytes
base_name token = elim (index_of (codes "/") (reverse token)) [
  | none ↦ token
  | some i ↦ reverse (take i (reverse token))
]

unfoldable pub first_token : Bytes → Bytes
unfolding base_name
first_token command =
    let trimmed = trim command in
    if null trimmed
    then []
    else normalize_text (
        base_name
          (elim (index_of (codes " ") trimmed) [ none ↦ trimmed | some pos ↦ take pos trimmed ]))

unfoldable pub sanitize_protocol_token : Bytes → Bytes
sanitize_protocol_token [] = []
sanitize_protocol_token (c ∷ s) =
    (if c == b'\t' || (c == b'\n' || c == b'\r') then b' ' else c) ∷ sanitize_protocol_token s

unfoldable pub approval_decision_from_string : Bytes → Result ApprovalDecision
unfolding normalize_text
approval_decision_from_string value =
    let normalized = normalize_text value in
    if equal normalized (codes "allow-once") || equal normalized (codes "allow_once")
    then ok allow_once
    else if equal normalized (codes "allow-always") || equal normalized (codes "allow_always")
    then ok allow_always
    else if equal normalized (codes "deny")
    then ok ApprovalDecision.deny
    else err (codes "unknown ApprovalDecision: " ++ value)

-- The store keeps normalized commands, without repetitions; its file has one on each line.
pub record ApprovalStore : Type 0 where
  pub entries : List Bytes
  pub file : Option Bytes

unfoldable pub add_entry : List Bytes → Bytes → List Bytes
add_entry entries normalized =
    if null normalized
    then entries
    else if mem normalized entries
    then entries
    else entries ++ normalized ∷ []

unfoldable pub load_lines : List Bytes → List Bytes → List Bytes
unfolding add_entry
load_lines entries [] = entries
load_lines entries (line ∷ rest) = load_lines (add_entry entries (normalize_text line)) rest

-- A file that cannot be opened holds nothing.
unfoldable pub file_entries : Option Bytes → List Bytes
unfolding load_lines lines
file_entries none = []
file_entries (some text) = load_lines [] (lines [] text)

unfoldable pub load : ApprovalStore → ApprovalStore
unfolding file_entries
load s = record s { entries = file_entries s.file }

unfoldable pub save : Bool → ApprovalStore → ApprovalStore
unfolding unlines
save writable s = if writable then record s { file = some (unlines s.entries) } else s

unfoldable pub contains : ApprovalStore → Bytes → Bool
unfolding normalize_text
contains s command =
    let normalized = normalize_text command in
    if null normalized then false else mem normalized s.entries

unfoldable pub add : ApprovalStore → Bytes → ApprovalStore
unfolding add_entry
add s command = record s { entries = add_entry s.entries (normalize_text command) }

-- One entry of the allowlist against the command and its executable.
unfoldable pub entry_matches : Bytes → Bytes → Bytes → Bool
entry_matches normalized_command executable entry =
    let pattern = normalize_text entry in
    if null pattern
    then false
    else if not (has_glob_chars pattern)
    then equal normalized_command pattern || equal executable pattern
    else regex_match normalized_command (glob_to_regex pattern)
      || regex_match executable (glob_to_regex pattern)

unfoldable pub matches_allowlist : Bytes → List Bytes → Bool
unfolding entry_matches first_token
matches_allowlist command [] = false
matches_allowlist command (entry ∷ rest) =
    let normalized_command = normalize_text command in
    entry_matches normalized_command (first_token normalized_command) entry
    || matches_allowlist command rest

-- The line that the socket's answer begins with, trimmed.
unfoldable pub response_line : Bytes → Bytes
response_line response = elim (index_of (codes "\n") response) [
  | none ↦ trim response
  | some line_end ↦ trim (take line_end response)
]

unfoldable pub request_line : ApprovalRequest → Bytes → Bytes
unfolding sanitize_protocol_token
request_line r command =
    codes "REQUEST\t"
    ++ (r.timeout
        ++ (b'\t' ∷ (sanitize_protocol_token r.session_id ++ (b'\t' ∷ (command ++ b'\n' ∷ [])))))

unfoldable pub parse_response : Bytes → Result ApprovalDecision
unfolding response_line approval_decision_from_string
parse_response response = do
  let line = response_line response
  guard (not (null line)) (codes "approval request timed out")
  guard (is_prefix (codes "DECISION\t") line) (codes "approval socket returned malformed response")
  approval_decision_from_string (drop 9 line)

pub record ApprovalManager : Type 0 where
  pub policy : ApprovalPolicy
  pub store : ApprovalStore

-- The constructor loads the store.
unfoldable pub new_manager : ApprovalPolicy → ApprovalStore → ApprovalManager
unfolding load
new_manager policy store = record { policy = policy; store = load store }

unfoldable pub set_policy : ApprovalManager → ApprovalPolicy → ApprovalManager
set_policy m policy = record m { policy = policy }

unfoldable pub is_allowlisted : ApprovalManager → Bytes → Bool
unfolding matches_allowlist contains
is_allowlisted m command = matches_allowlist command m.policy.allowlist || contains m.store command

-- The tests of `needs_approval` behind the lookup.
abbrev pub asks : ExecSecurity → ExecAsk → Bool → Bool
asks ExecSecurity.deny ask allowlisted = false
asks _ always allowlisted = true
asks _ off allowlisted = false
asks _ on_miss allowlisted = not allowlisted

unfoldable pub needs_approval : ApprovalManager → ApprovalRequest → Bool
needs_approval m r = asks m.policy.security m.policy.ask (is_allowlisted m r.command)

abbrev is_allow_always : ApprovalDecision → Bool
is_allow_always allow_always = true
is_allow_always _ = false

abbrev pub is_deny : ExecSecurity → Bool
is_deny ExecSecurity.deny = true
is_deny _ = false

abbrev pub is_allowlist : ExecSecurity → Bool
is_allowlist allowlist = true
is_allowlist _ = false

abbrev pub is_off : ExecAsk → Bool
is_off off = true
is_off _ = false

unfoldable pub request : (Bytes → Result Bytes) → ApprovalRequest → Result ApprovalDecision
request exchange r = do
  let command = sanitize_protocol_token (trim r.command)
  guard (not (null command)) (codes "approval request command is empty")
  response ← exchange (request_line r command)
  parse_response response

-- The answer is remembered if it is `allow_always`; a failed exchange denies.
unfoldable pub act_on :
    Bool → ApprovalManager → Bytes → Result ApprovalDecision → ApprovalManager × ApprovalDecision
act_on writable m command (err _) = (m, ApprovalDecision.deny)
act_on writable m command (ok decision) =
    if is_allow_always decision
    then (record m { store = save writable (add m.store command) }, decision)
    else (m, decision)

-- Every result of `authorize` is a success, so the decision stands alone.
unfoldable pub authorize :
    (Bytes → Result Bytes)
    → Bool
    → ApprovalManager
    → ApprovalRequest
    → ApprovalManager × ApprovalDecision
unfolding needs_approval act_on
authorize exchange writable m r =
    let allowlisted = is_allowlisted m r.command in
    let restricted = is_allowlist m.policy.security && not allowlisted in
    if is_deny m.policy.security
    then (m, ApprovalDecision.deny)
    else if restricted && is_off m.policy.ask
    then (m, ApprovalDecision.deny)
    else if not (needs_approval m r)
    then (if restricted then (m, ApprovalDecision.deny) else (m, allow_once))
    else act_on writable m r.command (request exchange r)
