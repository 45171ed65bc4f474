-- ===== src/Gateway/Client/Replies.antt =====
-- Every message of a client is answered (src/gateway/websocket.cpp).
use ghostclaw.Base.{
  ◌≡◌, ◌⊎◌, refl, ap, sym, ◌∙◌, ◌||◌, ◌&&◌, not, Bool, true, false, Option, if◌then◌else◌, List, [],
  ◌∷◌, ◌++◌, none, some, inl, inr, null, map, append_assoc, Bool-cases,
}
use ghostclaw.Base.Text.{Bytes, codes, equal}
use ghostclaw.Common.{Result, ok, err}
use ghostclaw.Gateway.Message.{RpcMap, WsClientMessage, WsServerMessage}
use ghostclaw.Gateway.Client.{
  message, ClientState, CallHandler, send, call_message, call_result, method_of, is_subscribe,
  is_unsubscribe, handle_call, handle_client_message,
}

-- The message is a call with the name of a method: no subscription, no ping, and of the type "rpc".
abbrev pub is_call : WsClientMessage → Bool
is_call m =
    not (is_subscribe m)
    && (not (is_unsubscribe m)
        && (not (equal (method_of m) (codes "ping"))
            && (equal m.type (codes "rpc")
                && not (null (method_of m) || equal (method_of m) (codes "rpc")))))

-- What a handler answers to a message, where the message is a call and there is a handler.
abbrev pub asked : CallHandler → WsClientMessage → Option (List RpcMap × Result RpcMap)
asked none m = none
asked (some f) m = some (f m)

abbrev pub called : CallHandler → WsClientMessage → Option (List RpcMap × Result RpcMap)
called handler m = if is_call m then asked handler m else none

-- The messages are the events of a call to the message `m`, with these payloads in their order.
abbrev pub AreEvents : WsClientMessage → List RpcMap → List WsServerMessage → Type 0
AreEvents m [] [] = Unit
AreEvents m [] (e ∷ events) = ⊥
AreEvents m (p ∷ payloads) [] = ⊥
AreEvents m (p ∷ payloads) (e ∷ events) =
    (e.type ≡ codes "rpc.event")
    × (e.id ≡ m.id)
    × (e.session ≡ m.session)
    × (e.payload ≡ p)
    × AreEvents m payloads events

abbrev pub payloads_of : Option (List RpcMap × Result RpcMap) → List RpcMap
payloads_of none = []
payloads_of (some (payloads, r)) = payloads

-- A call is answered by its result or its error, any other message by one of three types.
abbrev pub Tells : Option (List RpcMap × Result RpcMap) → WsServerMessage → Type 0
Tells none answer =
    (answer.type ≡ codes "ack") ⊎ (answer.type ≡ codes "pong") ⊎ (answer.type ≡ codes "error")
Tells (some (payloads, ok result)) answer =
    (answer.type ≡ codes "rpc.result") × (answer.payload ≡ result)
Tells (some (payloads, err error)) answer =
    (answer.type ≡ codes "error") × (answer.error ≡ some error)

-- The messages sent to a client grow by the events of a call and one answer.
pub record Answers (m : WsClientMessage) (call : Option (List RpcMap × Result RpcMap))
    (c c' : ClientState) : Type 0 where
  pub events : List WsServerMessage
  pub answer : WsServerMessage
  pub grows : c'.sent ≡ c.sent ++ map message (events ++ answer ∷ [])
  pub are_events : AreEvents m (payloads_of call) events
  pub answers_id : answer.id ≡ m.id
  pub tells : Tells call answer

answered :
    (m : WsClientMessage) (c : ClientState) (sessions : List Bytes) (answer : WsServerMessage)
    → answer.id ≡ m.id
    → (answer.type ≡ codes "ack") ⊎ (answer.type ≡ codes "pong") ⊎ (answer.type ≡ codes "error")
    → Answers m none c (send (record c { sessions = sessions }) answer)
answered m c sessions answer e t = record {
  events = [];
  answer = answer;
  grows = refl;
  are_events = tt;
  answers_id = e;
  tells = t;
}

events-AreEvents :
    (m : WsClientMessage) (payloads : List RpcMap)
    → AreEvents m payloads (map (call_message (codes "rpc.event") m) payloads)
events-AreEvents m [] = tt
events-AreEvents m (p ∷ payloads) = (refl, refl, refl, refl, events-AreEvents m payloads)

map-append :
    (xs ys : List WsServerMessage) → map message (xs ++ ys) ≡ map message xs ++ map message ys
map-append [] ys = refl
map-append (x ∷ xs) ys = ap (◌∷◌ (message x)) (map-append xs ys)

call_result-Tells :
    (m : WsClientMessage) (payloads : List RpcMap) (r : Result RpcMap)
    → ((call_result m r).id ≡ m.id) × Tells (some (payloads, r)) (call_result m r)
unfolding call_result
call_result-Tells m payloads (ok payload) = (refl, (refl, refl))
call_result-Tells m payloads (err error) = (refl, (refl, refl))

-- A message that is a call, with and without a handler.
handle_call-asked :
    (handler : CallHandler) (c : ClientState) (m : WsClientMessage)
    → (null (method_of m) || equal (method_of m) (codes "rpc")) ≡ false
    → Answers m (asked handler m) c (handle_call handler c m)
unfolding handle_call
handle_call-asked none c m named = rw named (answered m c c.sessions _ refl (inr (inr refl)))
handle_call-asked (some f) c m named =
    let events = map (call_message (codes "rpc.event") m) (f m).0 in
    let (same_id, tells) = call_result-Tells m (f m).0 (f m).1 in
    rw named (record {
      events = events;
      answer = call_result m (f m).1;
      grows =
          append_assoc c.sent (map message events) (message (call_result m (f m).1) ∷ [])
          ∙ ap (λ k. c.sent ++ k) (sym (map-append events (call_result m (f m).1 ∷ [])));
      are_events = events-AreEvents m (f m).0;
      answers_id = same_id;
      tells = tells;
    })

handle_call-missing :
    (handler : CallHandler) (c : ClientState) (m : WsClientMessage)
    → (null (method_of m) || equal (method_of m) (codes "rpc")) ≡ true
    → Answers m none c (handle_call handler c m)
unfolding handle_call
handle_call-missing handler c m missing =
    rw missing (answered m c c.sessions _ refl (inr (inr refl)))

handle_call-Answers :
    (handler : CallHandler) (c : ClientState) (m : WsClientMessage)
    → Answers m
        (if not (null (method_of m) || equal (method_of m) (codes "rpc"))
          then asked handler m
          else none)
        c
        (handle_call handler c m)
handle_call-Answers handler c m =
    elim (Bool-cases (null (method_of m) || equal (method_of m) (codes "rpc"))) [
      | inl missing ↦ rw missing (handle_call-missing handler c m missing)
      | inr named ↦ rw named (handle_call-asked handler c m named)
    ]

-- If a message is a call with a method's name and there is a handler, the client is sent one event
-- for each payload that the handler gives, in their order and with the id and session of the message,
-- and then exactly one answer, with the handler's result or its error. To any other message it is
-- sent exactly one answer, an acknowledgement, a pong or an error. An answer has the message's id.
pub handle_client_message-Answers :
    (handler : CallHandler) (c : ClientState) (m : WsClientMessage)
    → Answers m (called handler m) c (handle_client_message handler c m)
unfolding handle_client_message
handle_client_message-Answers handler c m = elim (Bool-cases (is_subscribe m)) [
  | inl subscribe ↦ elim (Bool-cases (null m.session)) [
    | inl none_given ↦ rw (subscribe, none_given) (answered m c c.sessions _ refl (inr (inr refl)))
    | inr given ↦ rw (subscribe, given) (answered m c _ _ refl (inl refl))
  ]
  | inr other ↦ elim (Bool-cases (is_unsubscribe m)) [
    | inl unsubscribe ↦ elim (Bool-cases (null m.session)) [
      | inl none_given ↦
          rw (other, unsubscribe, none_given) (answered m c c.sessions _ refl (inr (inr refl)))
      | inr given ↦ rw (other, unsubscribe, given) (answered m c _ _ refl (inl refl))
    ]
    | inr another ↦ elim (Bool-cases (equal (method_of m) (codes "ping"))) [
      | inl ping ↦ rw (other, another, ping) (answered m c c.sessions _ refl (inr (inl refl)))
      | inr no_ping ↦ elim (Bool-cases (equal m.type (codes "rpc"))) [
        | inr unknown ↦
            rw (other, another, no_ping, unknown) (answered m c c.sessions _ refl (inr (inr refl)))
        | inl call ↦ rw (other, another, no_ping, call) (handle_call-Answers handler c m)
      ]
    ]
  ]
]
