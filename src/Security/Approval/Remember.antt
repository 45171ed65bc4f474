-- ===== src/Security/Approval/Remember.antt =====
-- What a remembered answer changes (`ApprovalManager` of src/security/approval.cpp).
use ghostclaw.Base.{
  ◌≡◌, ◌≢◌, refl, ◌∙◌, Bool, true, false, List, [], ◌∷◌, ◌++◌, arith, null, any-append,
}
use ghostclaw.Base.Text.{Bytes, equal, equal_refl, mem}
use ghostclaw.Common.{Result, ok}
use ghostclaw.Common.Fs.{trim, to_lower}
use ghostclaw.Security.Approval.{
  ExecSecurity, always, ApprovalDecision, allow_once, allow_always, ApprovalRequest,
  ApprovalManager, ApprovalStore, is_allowlisted, request, authorize, normalize_text,
  sanitize_protocol_token, add_entry, add, save, contains,
}

null-to_lower : (s : Bytes) → null (to_lower s) ≡ null s
unfolding to_lower
null-to_lower [] = refl
null-to_lower (c ∷ s) = refl

null-sanitize : (s : Bytes) → null (sanitize_protocol_token s) ≡ null s
unfolding sanitize_protocol_token
null-sanitize [] = refl
null-sanitize (c ∷ s) = refl

-- The user is only asked about a command that is not empty.
request-ok-null :
    (exchange : Bytes → Result Bytes) (r : ApprovalRequest) (d : ApprovalDecision)
    → request exchange r ≡ ok d
    → null (normalize_text r.command) ≡ false
unfolding request normalize_text
request-ok-null exchange r d h =
    ground (arith, null-to_lower (trim r.command), null-sanitize (trim r.command))

mem-concat : (x : Bytes) (xs : List Bytes) → mem x (xs ++ x ∷ []) ≡ true
unfolding mem
mem-concat x xs = any-append (λ y. equal y x) xs (x ∷ []) ∙ ground (arith, equal_refl x)

mem-add_entry :
    (entries : List Bytes) (x : Bytes) → null x ≡ false → mem x (add_entry entries x) ≡ true
unfolding add_entry
mem-add_entry entries x h = ground (arith, mem-concat x entries)

contains-add :
    (writable : Bool) (s : ApprovalStore) (command command' : Bytes)
    → normalize_text command' ≡ normalize_text command
    → null (normalize_text command) ≡ false
    → contains (save writable (add s command)) command' ≡ true
unfolding contains save add
contains-add writable s command command' e h =
    rw e (ground (arith, h, mem-add_entry s.entries (normalize_text command) h))

authorize-allowlisted :
    (exchange : Bytes → Result Bytes) (writable : Bool) (m : ApprovalManager) (r : ApprovalRequest)
    → m.policy.security ≢ ExecSecurity.deny
    → m.policy.ask ≢ always
    → is_allowlisted m r.command ≡ true
    → authorize exchange writable m r ≡ (m, allow_once)
unfolding authorize
authorize-allowlisted exchange writable m r s a h = ground arith

asked_always :
    (exchange : Bytes → Result Bytes) (writable : Bool) (m : ApprovalManager) (r : ApprovalRequest)
    → (authorize exchange writable m r).1 ≡ allow_always
    → (m.policy.security ≢ ExecSecurity.deny)
      × (request exchange r ≡ ok allow_always)
      × ((authorize exchange writable m r).0
          ≡ record m { store = save writable (add m.store r.command) })
unfolding authorize
asked_always exchange writable m r h = (ground arith, ground arith, ground arith)

-- Once the user has answered "allow always", the same command, up to its case and the space around
-- it, runs without a question, whatever the socket would answer and whether or not the store could
-- be written, unless the policy asks always.
pub authorize_again :
    (exchange exchange' : Bytes → Result Bytes) (writable writable' : Bool) (m : ApprovalManager)
    (r r' : ApprovalRequest)
    → (authorize exchange writable m r).1 ≡ allow_always
    → normalize_text r'.command ≡ normalize_text r.command
    → m.policy.ask ≢ always
    → authorize exchange' writable' (authorize exchange writable m r).0 r'
      ≡ ((authorize exchange writable m r).0, allow_once)
authorize_again exchange exchange' writable writable' m r r' h e ask =
    let (open_, answered, after) = asked_always exchange writable m r h in
    let known =
      contains-add writable m.store r.command r'.command e
        (request-ok-null exchange r allow_always answered) in
    rw after (
      authorize-allowlisted exchange' writable' _ r' open_ ask
        (unfold is_allowlisted in ground (arith, known)))
