-- ===== src/Gateway/Client.antt =====
-- One client of the server of src/gateway/websocket.cpp: what its messages do and what it is sent.
-- The server runs while the client is served, and a frame that cannot be sent is lost, which the
-- code ignores; `sent` holds what is handed to `send_frame`, in order.
pub mod Replies
pub mod Subscriptions
pub mod Serve
use ghostclaw.Base.{
  ℕ, suc, zero, Bool, true, false, ◌&&◌, ◌||◌, not, List, [], ◌∷◌, ◌++◌, Option, none, some, ◌==◌,
  if◌then◌else◌, null, length, map, keep,
}
use ghostclaw.Base.Text.{Bytes, codes, equal, mem}
use ghostclaw.Common.{Result, ok, err}
use ghostclaw.Gateway.Frame.{Frame, read_next_frame}
use ghostclaw.Gateway.Handshake.{HandshakeOptions, HttpResponse, perform_handshake}
use ghostclaw.Gateway.Message.{RpcMap, WsClientMessage, WsServerMessage, parse_ws_client_message}

pub data Sent : Type 0 where
  message : WsServerMessage → Sent
  pong : Bytes → Sent

pub record ClientState : Type 0 where
  pub sessions : List Bytes
  pub sent : List Sent

-- The function that is set for calls, if one is: the events that it passes to its callback, and
-- its result.
abbrev pub CallHandler : Type 0
CallHandler = Option (WsClientMessage → List RpcMap × Result RpcMap)

abbrev pub send : ClientState → WsServerMessage → ClientState
send c m = record c { sent = c.sent ++ message m ∷ [] }

abbrev pub send_all : ClientState → List WsServerMessage → ClientState
send_all c ms = record c { sent = c.sent ++ map message ms }

abbrev pub error_message : Bytes → Bytes → WsServerMessage
error_message id error = record {
  type = codes "error";
  id = id;
  session = [];
  payload = [];
  error = some error;
}

abbrev pub ack : WsClientMessage → Bytes → WsServerMessage
ack m action = record {
  type = codes "ack";
  id = m.id;
  session = m.session;
  payload = (codes "action", action) ∷ [];
  error = none;
}

abbrev pub call_message : Bytes → WsClientMessage → RpcMap → WsServerMessage
call_message type m payload = record {
  type = type;
  id = m.id;
  session = m.session;
  payload = payload;
  error = none;
}

abbrev pub pong_message : WsClientMessage → WsServerMessage
pong_message m = record { type = codes "pong"; id = m.id; session = []; payload = []; error = none }

-- std::unordered_set
unfoldable pub insert_session : Bytes → List Bytes → List Bytes
unfolding mem
insert_session session sessions =
    if mem session sessions then sessions else sessions ++ session ∷ []

unfoldable pub erase_session : Bytes → List Bytes → List Bytes
erase_session session sessions = keep (λ s. not (equal s session)) sessions

abbrev pub method_of : WsClientMessage → Bytes
method_of m = if null m.method then m.type else m.method

unfoldable pub is_subscribe : WsClientMessage → Bool
is_subscribe m =
    equal (method_of m) (codes "subscribe") || equal (method_of m) (codes "session.subscribe")

unfoldable pub is_unsubscribe : WsClientMessage → Bool
is_unsubscribe m =
    equal (method_of m) (codes "unsubscribe") || equal (method_of m) (codes "session.unsubscribe")

-- The last message of a call.
unfoldable pub call_result : WsClientMessage → Result RpcMap → WsServerMessage
call_result m (ok payload) = call_message (codes "rpc.result") m payload
call_result m (err error) = error_message m.id error

unfoldable pub handle_call : CallHandler → ClientState → WsClientMessage → ClientState
unfolding call_result
handle_call handler c m =
    if null (method_of m) || equal (method_of m) (codes "rpc")
    then send c (error_message m.id (codes "missing rpc method"))
    else elim handler [
      | none ↦ send c (error_message m.id (codes "rpc handler unavailable"))
      | some f ↦
          send (send_all c (map (call_message (codes "rpc.event") m) (f m).0))
            (call_result m (f m).1)
    ]

unfoldable pub handle_client_message : CallHandler → ClientState → WsClientMessage → ClientState
unfolding is_subscribe is_unsubscribe insert_session erase_session handle_call
handle_client_message handler c m =
    if is_subscribe m
    then (if null m.session
        then send c (error_message m.id (codes "missing session"))
        else send (record c { sessions = insert_session m.session c.sessions })
            (ack m (codes "subscribe")))
    else if is_unsubscribe m
    then (if null m.session
        then send c (error_message m.id (codes "missing session"))
        else send (record c { sessions = erase_session m.session c.sessions })
            (ack m (codes "unsubscribe")))
    else if equal (method_of m) (codes "ping")
    then send c (pong_message m)
    else if equal m.type (codes "rpc")
    then handle_call handler c m
    else send c (error_message m.id (codes "unsupported message type"))

-- A text frame's payload.
unfoldable pub handle_text : CallHandler → ClientState → Bytes → ClientState
unfolding handle_client_message
handle_text handler c payload = elim (parse_ws_client_message payload) [
  | err error ↦ send c (error_message [] error)
  | ok m ↦ handle_client_message handler c m
]

-- What one frame does; `none` where it closes the connection.
unfoldable pub handle_frame : CallHandler → ClientState → Frame → Option ClientState
unfolding handle_text
handle_frame handler c f =
    if f.opcode == 8
    then none
    else if f.opcode == 9
    then some (record c { sent = c.sent ++ pong f.payload ∷ [] })
    else if f.opcode == 1
    then some (handle_text handler c f.payload)
    else some c

-- The loop `while (running_)`, on fuel; `none` means that the fuel ran out.
unfoldable pub frame_loop : ℕ → CallHandler → ClientState → Bytes → Option ClientState
unfolding handle_frame
frame_loop zero handler c stream = none
frame_loop (suc fuel) handler c stream = elim (read_next_frame stream) [
  | none ↦ some c
  | some (f, rest) ↦ elim (handle_frame handler c f) [
    | none ↦ some c
    | some c' ↦ frame_loop fuel handler c' rest
  ]
]

abbrev pub hello : WsServerMessage
hello = record {
  type = codes "hello";
  id = [];
  session = [];
  payload = (codes "status", codes "ready") ∷ [];
  error = none;
}

abbrev pub new_client : ClientState
new_client = record { sessions = []; sent = [] }

-- Every round takes bytes from the stream, so its length is fuel enough.
unfoldable pub client_loop : CallHandler → Bytes → Option ClientState
unfolding frame_loop
client_loop handler stream = frame_loop (suc (length stream)) handler (send new_client hello) stream

module _ (accept_key : Bytes → Bytes) where
  -- The handshake and, where its result says so, the loop.
  unfoldable pub serve :
      HandshakeOptions
      → (HttpResponse → Bool)
      → CallHandler
      → List Bytes
      → Bytes
      → Option ClientState
  serve options deliver handler reads stream =
      if (perform_handshake accept_key options deliver reads).0
      then client_loop handler stream
      else some new_client
