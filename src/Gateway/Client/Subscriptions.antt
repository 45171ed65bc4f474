-- ===== src/Gateway/Client/Subscriptions.antt =====
-- The sessions that a client follows (src/gateway/websocket.cpp).
use ghostclaw.Base.{
  ◌≡◌, refl, ap, ◌∙◌, Bool, true, false, ◌||◌, not, List, [], ◌∷◌, arith, if◌then◌else◌, inl, inr,
  null, any-append, Bool-cases,
}
use ghostclaw.Base.Text.{Bytes, equal, equal_iff, mem}
use ghostclaw.Gateway.Message.{WsClientMessage}
use ghostclaw.Gateway.Client.{
  ClientState, CallHandler, is_subscribe, is_unsubscribe, insert_session, erase_session,
  handle_call, handle_client_message,
}

abbrev pub handle_all : CallHandler → ClientState → List WsClientMessage → ClientState
handle_all handler c [] = c
handle_all handler c (m ∷ ms) = handle_all handler (handle_client_message handler c m) ms

-- Whether the session is followed behind one message, if it was before or not.
abbrev pub follows_next : Bytes → Bool → WsClientMessage → Bool
follows_next session followed m =
    if null m.session || not (equal m.session session)
    then followed
    else if is_subscribe m
    then true
    else if is_unsubscribe m
    then false
    else followed

-- What the last message about the session asked for.
abbrev pub follows : Bytes → Bool → List WsClientMessage → Bool
follows session followed [] = followed
follows session followed (m ∷ ms) = follows session (follows_next session followed m) ms

mem-insert_session :
    (s k : Bytes) (xs : List Bytes)
    → mem s (insert_session k xs) ≡ (if equal k s then true else mem s xs)
unfolding insert_session mem
mem-insert_session s k xs = elim (Bool-cases (mem k xs)) [
  | inl old ↦ rw old (elim (Bool-cases (equal k s)) [
    | inl same ↦ let e = (equal_iff k s).0 same in rw same (rw (← e) old)
    | inr other ↦ rw other refl
  ])
  | inr new ↦ rw new (any-append (λ y. equal y s) xs (k ∷ []) ∙ ground arith)
]

mem-erase_session :
    (s k : Bytes) (xs : List Bytes)
    → mem s (erase_session k xs) ≡ (if equal k s then false else mem s xs)
unfolding erase_session mem
mem-erase_session s k [] = ground arith
mem-erase_session s k (x ∷ xs) =
    ground (arith, mem-erase_session s k xs, equal_iff x k, equal_iff k s, equal_iff x s)

handle_call-sessions :
    (handler : CallHandler) (c : ClientState) (m : WsClientMessage)
    → (handle_call handler c m).sessions ≡ c.sessions
unfolding handle_call
handle_call-sessions handler c m = ground arith

step-follows :
    (handler : CallHandler) (c : ClientState) (m : WsClientMessage) (s : Bytes)
    → mem s (handle_client_message handler c m).sessions ≡ follows_next s (mem s c.sessions) m
unfolding handle_client_message
step-follows handler c m s = ground (
  arith,
  handle_call-sessions handler c m,
  mem-insert_session s m.session c.sessions,
  mem-erase_session s m.session c.sessions,
)

-- After any messages the client follows exactly the sessions whose last subscription or its end is
-- a subscription, and of the sessions that no message is about, those that it followed before.
pub handle_all-follows :
    (handler : CallHandler) (c : ClientState) (ms : List WsClientMessage) (session : Bytes)
    → mem session (handle_all handler c ms).sessions ≡ follows session (mem session c.sessions) ms
handle_all-follows handler c [] session = refl
handle_all-follows handler c (m ∷ ms) session =
    handle_all-follows handler (handle_client_message handler c m) ms session
    ∙ ap (λ b. follows session b ms) (step-follows handler c m session)
