-- ===== src/Gateway/Frame.antt =====
-- The frames of src/gateway/websocket.cpp. A connection is the list of the bytes that are still to
-- be received; a read that meets its end fails.
pub mod RoundTrip
use Prim.Native.Nat.{bit_xor}
use ghostclaw.Base.{
  ℕ, ◌+◌, ◌*◌, ◌/◌, ◌%◌, ◌^◌, Bool, true, false, ◌&&◌, not, List, [], ◌∷◌, ◌++◌, Option, none, some,
  leb, ◌==◌, if◌then◌else◌, length, take, drop, get_elem?, map,
}
use ghostclaw.Base.Maybe.{◌>>=◌, ◌>>◌, ensure}
use ghostclaw.Base.Text.{Bytes}

abbrev pub max_payload : ℕ
max_payload = 1048576

unfoldable pub recv_exact : ℕ → Bytes → Option (Bytes × Bytes)
recv_exact n stream = if leb n (length stream) then some (take n stream, drop n stream) else none

pub record Frame : Type 0 where
  pub opcode : ℕ
  pub payload : Bytes

-- `payload_len = (payload_len << 8) | byte`, from the first byte on
unfoldable pub big_endian : ℕ → Bytes → ℕ
big_endian value [] = value
big_endian value (b ∷ ext) = big_endian ((value * 256 + b) % 2 ^ 64) ext

-- The length, which may stand behind the two header bytes.
unfoldable pub read_length : ℕ → Bytes → Option (ℕ × Bytes)
unfolding recv_exact big_endian
read_length short stream =
    if short == 126
    then recv_exact 2 stream >>= (λ p. some (big_endian 0 p.0, p.1))
    else if short == 127
    then recv_exact 8 stream >>= (λ p. some (big_endian 0 p.0, p.1))
    else some (short, stream)

-- `mask[i % 4]`
unfoldable pub mask_byte : Bytes → ℕ → ℕ
mask_byte mask i = elim (get_elem? mask (i % 4)) [ none ↦ 0 | some b ↦ b ]

unfoldable pub unmask : Bytes → ℕ → Bytes → Bytes
unfolding mask_byte
unmask mask i [] = []
unmask mask i (b ∷ bytes) = bit_xor b (mask_byte mask i) ∷ unmask mask (i + 1) bytes

unfoldable pub read_body : ℕ → Bool → ℕ → Bytes → Option (Frame × Bytes)
unfolding recv_exact unmask
read_body opcode masked payload_len stream = do
  ensure (masked && leb payload_len max_payload)
  (mask, stream') ← recv_exact 4 stream
  (bytes, rest) ← recv_exact payload_len stream'
  some (record { opcode = opcode; payload = unmask mask 0 bytes }, rest)

unfoldable pub read_next_frame : Bytes → Option (Frame × Bytes)
read_next_frame [] = none
read_next_frame (h ∷ []) = none
read_next_frame (h ∷ l ∷ stream) = do
  ensure (h / 128 % 2 == 1)
  (payload_len, stream') ← read_length (l % 128) stream
  read_body (h % 16) (l / 128 % 2 == 1) payload_len stream'

-- The length as it is written behind the first byte.
unfoldable pub size_bytes : ℕ → Bytes
size_bytes size =
    if leb size 125
    then size ∷ []
    else if leb size 65535
    then 126 ∷ (size / 256 % 256) ∷ (size % 256) ∷ []
    else 127 ∷ map (λ shift. size / 2 ^ shift % 256) (56 ∷ 48 ∷ 40 ∷ 32 ∷ 24 ∷ 16 ∷ 8 ∷ 0 ∷ [])

-- The bytes of `send_frame`.
unfoldable pub frame_bytes : ℕ → Bytes → Bytes
unfolding size_bytes
frame_bytes opcode payload = (128 + opcode % 16) ∷ (size_bytes (length payload) ++ payload)
