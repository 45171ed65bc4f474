-- ===== src/Tests/Served.antt =====
-- Clients of the gateway at concrete inputs.
use ghostclaw.Base.{◌≡◌, refl, true, false, [], ◌∷◌, ◌++◌, none, some, arith}
use ghostclaw.Base.Text.{Bytes, codes, mem, equal}
use ghostclaw.Common.{ok}
use ghostclaw.Gateway.Frame.{read_next_frame}
use ghostclaw.Gateway.Frame.RoundTrip.{client_frame, read_next_frame-client_frame}
use ghostclaw.Gateway.Message.{RpcResponse, WsClientMessage}
use ghostclaw.Gateway.Handshake.{HandshakeOptions}
use ghostclaw.Gateway.Client.{
  CallHandler, is_subscribe, is_unsubscribe, ClientState, new_client, handle_client_message,
  client_loop, serve,
}
use ghostclaw.Gateway.Client.Replies.{Answers, is_call, called, handle_client_message-Answers}
use ghostclaw.Gateway.Client.Subscriptions.{handle_all, follows, handle_all-follows}
use ghostclaw.Gateway.Client.Serve.{client_loop_ends, serve_unauthorized}

abbrev mask : Bytes
mask = 7 ∷ 200 ∷ 31 ∷ 255 ∷ []

abbrev two_bytes : Bytes
two_bytes = 104 ∷ 105 ∷ []

read_next_frame-client_frame_example :
    read_next_frame (client_frame 1 mask two_bytes ++ 9 ∷ [])
    ≡ some (record { opcode = 1; payload = two_bytes }, 9 ∷ [])
read_next_frame-client_frame_example =
    read_next_frame-client_frame 1 mask two_bytes (9 ∷ []) (omega arith) refl
      (omega arith, (omega arith, (omega arith, (omega arith, tt))))
      (omega arith, (omega arith, tt)) (omega arith)

abbrev response : RpcResponse
response = record { id = codes "a\"b"; result = (codes "id", codes "x") ∷ []; error = none }

abbrev open_options : HandshakeOptions
open_options = record { require_authorization = false; authorize = none }

abbrev closed_options : HandshakeOptions
closed_options = record { require_authorization = true; authorize = none }

abbrev get_request : Bytes
get_request = codes "GET / HTTP/1.1\r\nUpgrade: websocket\r\n\r\n"

abbrev subscribe : WsClientMessage
subscribe = record {
  type = codes "subscribe";
  id = codes "1";
  session = codes "s";
  method = [];
  payload = [];
}

abbrev unsubscribe : WsClientMessage
unsubscribe = record {
  type = codes "unsubscribe";
  id = codes "2";
  session = codes "s";
  method = [];
  payload = [];
}

abbrev progress_call : WsClientMessage
progress_call = record {
  type = codes "rpc";
  id = codes "3";
  session = codes "s";
  method = codes "agent.run";
  payload = [];
}

-- The handler tells two events and gives a result.
abbrev progress : CallHandler
progress = some (λ m. (
  ((codes "step", codes "1") ∷ []) ∷ ((codes "step", codes "2") ∷ []) ∷ [],
  ok ((codes "done", m.method) ∷ []),
))

handle_client_message-Answers_example :
    Answers progress_call
      (called progress progress_call)
      new_client
      (handle_client_message progress new_client progress_call)
handle_client_message-Answers_example =
    handle_client_message-Answers progress new_client progress_call

is_progress_call : is_call progress_call ≡ true
unfolding is_subscribe is_unsubscribe equal
is_progress_call = refl

handle_all-follows_example :
    mem (codes "s") (handle_all none new_client (subscribe ∷ unsubscribe ∷ subscribe ∷ [])).sessions
    ≡ follows (codes "s") (mem (codes "s") []) (subscribe ∷ unsubscribe ∷ subscribe ∷ [])
handle_all-follows_example =
    handle_all-follows none new_client (subscribe ∷ unsubscribe ∷ subscribe ∷ []) (codes "s")

client_loop_ends_example :
    (c : ClientState) × (client_loop none (client_frame 9 mask two_bytes) ≡ some c)
client_loop_ends_example = client_loop_ends none (client_frame 9 mask two_bytes)

serve_unauthorized_example :
    serve (λ k. k) closed_options (λ r. true) none (get_request ∷ []) (129 ∷ [])
    ≡ serve (λ k. k) open_options (λ r. true) none (get_request ∷ []) (129 ∷ [])
serve_unauthorized_example =
    serve_unauthorized (λ k. k) closed_options open_options (λ r. true) none (get_request ∷ [])
      (129 ∷ []) (λ r. refl)
