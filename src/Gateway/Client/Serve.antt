-- ===== src/Gateway/Client/Serve.antt =====
-- The loop over a client's frames ends, and the handshake's refusal does not keep a client out
-- (src/gateway/websocket.cpp).
use ghostclaw.Base.{
  ℕ, zero, suc, ◌≤◌, ◌<◌, ◌%◌, ◌/◌, ◌==◌, ◌≡◌, refl, Bool, true, List, [], ◌∷◌, some, arith, inl,
  inr, length, length-drop, drop, Option-cases,
}
use ghostclaw.Base.Text.{Bytes}
use ghostclaw.Gateway.Frame.{Frame, recv_exact, read_length, read_body, read_next_frame}
use ghostclaw.Gateway.Handshake.{
  HandshakeOptions, HttpResponse, perform_handshake, read_request, response_to, is_some,
}
use ghostclaw.Gateway.Client.{
  ClientState, CallHandler, handle_frame, frame_loop, client_loop, serve,
}

recv_exact-shorter :
    (n : ℕ) (s xs rest : Bytes) → recv_exact n s ≡ some (xs, rest) → length rest ≤ length s
unfolding recv_exact
recv_exact-shorter n s xs rest h = ground (arith, length-drop n s)

read_length-shorter :
    (short : ℕ) (s : Bytes) (n : ℕ) (rest : Bytes)
    → read_length short s ≡ some (n, rest)
    → length rest ≤ length s
unfolding read_length recv_exact
read_length-shorter short s n rest h = ground (arith, length-drop 2 s, length-drop 8 s)

read_body-shorter :
    (opcode : ℕ) (masked : Bool) (n : ℕ) (s : Bytes) (f : Frame) (rest : Bytes)
    → read_body opcode masked n s ≡ some (f, rest)
    → length rest ≤ length s
unfolding read_body recv_exact
read_body-shorter opcode masked n s f rest h =
    ground (arith, length-drop 4 s, length-drop n (drop 4 s))

-- A frame takes at least its two header bytes.
read_next_frame-shorter :
    (s : Bytes) (f : Frame) (rest : Bytes)
    → read_next_frame s ≡ some (f, rest)
    → length rest < length s
unfolding read_next_frame
read_next_frame-shorter [] f rest h = ground arith
read_next_frame-shorter (a ∷ []) f rest h = ground arith
read_next_frame-shorter (a ∷ b ∷ s) f rest h = elim (Option-cases (read_length (b % 128) s)) [
  | inl e ↦ absurd (ground (arith, e))
  | inr ((n, s'), e) ↦ ground (
    arith,
    e,
    read_length-shorter (b % 128) s n s' e,
    read_body-shorter (a % 16) (b / 128 % 2 == 1) n s' f rest,
  )
]

frame_loop_ends :
    (fuel : ℕ) (handler : CallHandler) (c : ClientState) (stream : Bytes)
    → length stream < fuel
    → (c' : ClientState) × (frame_loop fuel handler c stream ≡ some c')
unfolding frame_loop
frame_loop_ends zero handler c stream h = absurd (omega arith)
frame_loop_ends (suc fuel) handler c stream h = elim (Option-cases (read_next_frame stream)) [
  | inl e ↦ (c, ground (arith, e))
  | inr ((f, rest), e) ↦ elim (Option-cases (handle_frame handler c f)) [
    | inl closed ↦ (c, ground (arith, e, closed))
    | inr (c', open_) ↦
        let shorter = read_next_frame-shorter stream f rest e in
        let (last, ends) = frame_loop_ends fuel handler c' rest (omega arith) in
        (last, ground (arith, e, open_, ends))
  ]
]

-- Whatever a client sends, the loop over its frames comes to an end.
pub client_loop_ends :
    (handler : CallHandler) (stream : Bytes)
    → (c : ClientState) × (client_loop handler stream ≡ some c)
unfolding client_loop
client_loop_ends handler stream =
    frame_loop_ends (suc (length stream)) handler _ stream (omega arith)

handshake_result :
    (accept_key : Bytes → Bytes) (options : HandshakeOptions) (deliver : HttpResponse → Bool)
    (reads : List Bytes)
    → ((r : HttpResponse) → deliver r ≡ true)
    → (perform_handshake accept_key options deliver reads).0 ≡ is_some (read_request [] reads)
unfolding perform_handshake
handshake_result accept_key options deliver reads sent =
    elim (Option-cases (read_request [] reads)) [
      | inl e ↦ ground (arith, e)
      | inr (request, e) ↦ ground (arith, e, sent (response_to accept_key options request))
    ]

-- Where every response can be sent, what a client is served does not depend on whether an
-- authorization is required, or on whether it is given: a client that is answered 401 is served as
-- one that is authorized.
pub serve_unauthorized :
    (accept_key : Bytes → Bytes) (options options' : HandshakeOptions)
    (deliver : HttpResponse → Bool) (handler : CallHandler) (reads : List Bytes) (stream : Bytes)
    → ((r : HttpResponse) → deliver r ≡ true)
    → serve accept_key options deliver handler reads stream
      ≡ serve accept_key options' deliver handler reads stream
unfolding serve
serve_unauthorized accept_key options options' deliver handler reads stream sent =
    rw
      (
        handshake_result accept_key options deliver reads sent,
        handshake_result accept_key options' deliver reads sent,
      )
      refl
