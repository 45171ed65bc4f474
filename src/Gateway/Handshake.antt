-- ===== src/Gateway/Handshake.antt =====
-- The handshake of src/gateway/websocket.cpp. `reads` are the bytes of each read of the socket, an
-- empty one being its end; `deliver` tells whether a response can be sent; `accept_key` is the
-- base64 text of the SHA-1 of the client's key with the protocol's identifier.
pub mod Response
use ghostclaw.Base.{
  ℕ, ◌+◌, ◌-◌, Bool, true, false, ◌&&◌, ◌||◌, not, List, [], ◌∷◌, ◌++◌, Option, none, some, leb,
  ltb, ◌==◌, if◌then◌else◌, length, take, drop, null,
}
use ghostclaw.Base.Text.{Bytes, codes, equal, index_of, is_prefix, lines}
use ghostclaw.Common.Fs.{trim, to_lower}

abbrev pub max_handshake : ℕ
max_handshake = 8192

abbrev pub crlf_crlf : Bytes
crlf_crlf = 13 ∷ 10 ∷ 13 ∷ 10 ∷ []

unfoldable pub lower_trimmed : Bytes → Bytes
lower_trimmed value = to_lower (trim value)

-- The last entry that was set for a key comes first.
abbrev pub Headers : Type 0
Headers = List (Bytes × Bytes)

unfoldable pub find_header : Bytes → Headers → Option Bytes
find_header key [] = none
find_header key ((k, v) ∷ headers) = if equal k key then some v else find_header key headers

-- `if (!line.empty() && line.back() == '\r') line.pop_back();`
unfoldable pub strip_cr : Bytes → Bytes
strip_cr [] = []
strip_cr (c ∷ s) = if c == 13 && null s then [] else c ∷ strip_cr s

unfoldable pub header_line : Bytes → Headers → Headers
unfolding lower_trimmed
header_line line headers = elim (index_of (codes ":") line) [
  | none ↦ headers
  | some colon ↦ (lower_trimmed (take colon line), trim (drop (colon + 1) line)) ∷ headers
]

unfoldable pub header_loop : Bool → Headers → List Bytes → Headers
unfolding strip_cr header_line
header_loop first headers [] = headers
header_loop first headers (raw ∷ rest) =
    let line = strip_cr raw in
    elim (null line) [
      | true ↦ headers
      | false ↦
          header_loop false
            (if first then (codes ":request-line", line) ∷ headers else header_line line headers)
            rest
    ]

unfoldable pub parse_headers : Bytes → Headers
unfolding header_loop
parse_headers request = header_loop true [] (lines [] request)

-- Reads until the request has its end or its longest size; a read that fails fails it.
unfoldable pub read_request : Bytes → List Bytes → Option Bytes
read_request request [] = if ltb (length request) max_handshake then none else some request
read_request request (chunk ∷ reads) = elim (ltb (length request) max_handshake) [
  | false ↦ some request
  | true ↦ elim (null chunk) [
    | true ↦ none
    | false ↦ elim (index_of crlf_crlf (request ++ chunk)) [
      | some _ ↦ some (request ++ chunk)
      | none ↦ read_request (request ++ chunk) reads
    ]
  ]
]

pub record HttpResponse : Type 0 where
  pub status : ℕ
  pub status_text : Bytes
  pub headers : Headers
  pub body : Bytes

abbrev json_error : ℕ → Bytes → Bytes → HttpResponse
json_error status text name = record {
  status = status;
  status_text = text;
  headers = (codes "Content-Type", codes "application/json") ∷ [];
  body = codes "{\"error\":\"" ++ (name ++ codes "\"}");
}

abbrev pub bad_request : HttpResponse
bad_request = json_error 400 (codes "Bad Request") (codes "invalid_websocket_handshake")

abbrev pub wrong_method : HttpResponse
wrong_method = json_error 405 (codes "Method Not Allowed") (codes "websocket_requires_get")

abbrev pub missing_headers : HttpResponse
missing_headers = json_error 400 (codes "Bad Request") (codes "missing_websocket_headers")

abbrev pub unauthorized : HttpResponse
unauthorized = json_error 401 (codes "Unauthorized") (codes "unauthorized")

abbrev pub switching : Bytes → HttpResponse
switching key = record {
  status = 101;
  status_text = codes "Switching Protocols";
  headers =
      (codes "Upgrade", codes "websocket")
      ∷ (codes "Connection", codes "Upgrade")
      ∷ (codes "Sec-WebSocket-Accept", key)
      ∷ [];
  body = [];
}

-- A header's value passes the test; a missing header does not.
abbrev pub header_is : Option Bytes → (Bytes → Bool) → Bool
header_is none test = false
header_is (some value) test = test value

abbrev pub is_some {ℓ} : {A : Type ℓ} → Option A → Bool
is_some none = false
is_some (some _) = true

abbrev pub or_empty : Option Bytes → Bytes
or_empty none = []
or_empty (some value) = value

unfoldable pub asks_upgrade : Headers → Bool
unfolding lower_trimmed
asks_upgrade headers =
    header_is (find_header (codes "upgrade") headers)
      (λ value. equal (lower_trimmed value) (codes "websocket"))
    && (header_is (find_header (codes "connection") headers)
          (λ value. is_some (index_of (codes "upgrade") (to_lower value)))
        && (header_is (find_header (codes "sec-websocket-version") headers)
              (λ value. equal (trim value) (codes "13"))
            && is_some (find_header (codes "sec-websocket-key") headers)))

pub record HandshakeOptions : Type 0 where
  pub require_authorization : Bool
  -- none where no function is set
  pub authorize : Option (Bytes → Bool)

unfoldable pub is_authorized : HandshakeOptions → Headers → Bool
is_authorized options headers =
    if options.require_authorization
    then elim options.authorize [
      | none ↦ false
      | some authorize ↦ authorize (or_empty (find_header (codes "authorization") headers))
    ]
    else true

module _ (accept_key : Bytes → Bytes) where
  -- The response to a request that was read.
  unfoldable pub response_to : HandshakeOptions → Bytes → HttpResponse
  unfolding asks_upgrade is_authorized
  response_to options request =
      let headers = parse_headers request in
      if not (is_some (index_of crlf_crlf request))
      then bad_request
      else if not (
          header_is (find_header (codes ":request-line") headers)
            (λ line. is_prefix (codes "GET ") line))
      then wrong_method
      else if not (asks_upgrade headers)
      then missing_headers
      else if not (is_authorized options headers)
      then unauthorized
      else switching
          (accept_key (trim (or_empty (find_header (codes "sec-websocket-key") headers))))

  -- The result, which tells `client_loop` to go on, and the response that was sent.
  unfoldable pub perform_handshake :
      HandshakeOptions → (HttpResponse → Bool) → List Bytes → Bool × Option HttpResponse
  unfolding response_to
  perform_handshake options deliver reads = elim (read_request [] reads) [
    | none ↦ (false, none)
    | some request ↦ (deliver (response_to options request), some (response_to options request))
  ]
