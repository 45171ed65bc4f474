-- ===== src/Gateway/Handshake/Response.antt =====
-- Which requests are switched to the WebSocket protocol (src/gateway/websocket.cpp).
use ghostclaw.Base.{◌≡◌, ◌↔◌, true, arith}
use ghostclaw.Base.Text.{Bytes, codes, index_of, is_prefix}
use ghostclaw.Gateway.Handshake.{
  HandshakeOptions, parse_headers, find_header, header_is, is_some, is_authorized, asks_upgrade,
  response_to, crlf_crlf,
}

abbrev pub IsGet : Bytes → Type 0
IsGet request =
    header_is (find_header (codes ":request-line") (parse_headers request))
      (λ line. is_prefix (codes "GET ") line)
    ≡ true

-- The response is the switch of protocols exactly when the request is whole, is a GET, asks for
-- the upgrade by its headers and is authorized as the options demand.
pub response_to_iff :
    (accept_key : Bytes → Bytes) (options : HandshakeOptions) (request : Bytes)
    → ((response_to accept_key options request).status ≡ 101) ↔ (
        (is_some (index_of crlf_crlf request) ≡ true)
        × IsGet request
        × (asks_upgrade (parse_headers request) ≡ true)
        × (is_authorized options (parse_headers request) ≡ true))
unfolding response_to
response_to_iff accept_key options request = (λ h. ground arith, λ h. ground arith)
