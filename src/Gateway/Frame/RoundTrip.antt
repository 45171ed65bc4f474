-- ===== src/Gateway/Frame/RoundTrip.antt =====
-- A frame of a client is read back (src/gateway/websocket.cpp).
use Prim.Native.Nat.{bit_xor}
use ghostclaw.Base.{
  ℕ, suc, zero, ◌+◌, ◌/◌, ◌%◌, ◌^◌, ◌≤◌, ◌<◌, ◌≡◌, refl, ap, sym, ◌∙◌, true, [], ◌∷◌, ◌++◌, none,
  some, arith, leb, le→leb, leb→le, append_assoc, length, length-append, take-append, drop-append,
  get_elem?, inl, inr, Bool-cases, map, ap₂,
}
use ghostclaw.Base.Table.{xor-xor}
use ghostclaw.Base.Text.{Bytes}
use ghostclaw.Gateway.Frame.{
  max_payload, recv_exact, big_endian, read_length, mask_byte, unmask, read_body, read_next_frame,
  size_bytes,
}

abbrev pub AreBytes : Bytes → Type 0
AreBytes [] = Unit
AreBytes (c ∷ s) = (c < 256) × AreBytes s

abbrev pub set_mask_bit : Bytes → Bytes
set_mask_bit [] = []
set_mask_bit (c ∷ s) = (c + 128) ∷ s

-- The mask is used up byte by byte and begins anew behind its end.
abbrev pub masked : Bytes → Bytes → Bytes
masked mask [] = []
masked [] (c ∷ payload) = c ∷ payload
masked (k ∷ mask) (c ∷ payload) = bit_xor c k ∷ masked (mask ++ k ∷ []) payload

-- A frame of a client after RFC 6455: the server's header with the mask bit, the mask, and the
-- masked payload.
abbrev pub client_frame : ℕ → Bytes → Bytes → Bytes
client_frame opcode mask payload =
    (128 + opcode % 16)
    ∷ (set_mask_bit (size_bytes (length payload)) ++ (mask ++ masked mask payload))

recv_exact-append :
    (xs rest : Bytes) (n : ℕ) → n ≡ length xs → recv_exact n (xs ++ rest) ≡ some (xs, rest)
unfolding recv_exact
recv_exact-append xs rest n e =
    let fits : leb (length xs) (length (xs ++ rest)) ≡ true =
      le→leb _ _ (omega (arith, length-append xs rest)) in
    rw (e, fits, take-append xs rest, drop-append xs rest) refl

mask_byte-lt : (mask : Bytes) (i : ℕ) → AreBytes mask → mask_byte mask i < 256
unfolding mask_byte
mask_byte-lt mask i h = at (i % 4) mask h
  where
    at :
        (k : ℕ) (m : Bytes)
        → AreBytes m
        → (elim (get_elem? m k) as (λ _. ℕ) [ none ↦ 0 | some b ↦ b ]) < 256
    at k [] g = omega arith
    at zero (c ∷ m) g = g.0
    at (suc k) (c ∷ m) g = at k m g.1

length-unmask : (mask : Bytes) (i : ℕ) (s : Bytes) → length (unmask mask i s) ≡ length s
unfolding unmask
length-unmask mask i [] = refl
length-unmask mask i (b ∷ s) = omega (arith, length-unmask mask (i + 1) s)

unmask-unmask :
    (mask : Bytes) (i : ℕ) (s : Bytes)
    → AreBytes mask
    → AreBytes s
    → unmask mask i (unmask mask i s) ≡ s
unfolding unmask
unmask-unmask mask i [] m h = refl
unmask-unmask mask i (b ∷ s) m (hb, hs) =
    ap₂ ◌∷◌ (xor-xor b (mask_byte mask i) hb (mask_byte-lt mask i m))
      (unmask-unmask mask (i + 1) s m hs)

mask_byte-around : (mask : Bytes) (i : ℕ) → mask_byte mask (i + 4) ≡ mask_byte mask i
unfolding mask_byte
mask_byte-around mask i =
    ap (λ k. elim (get_elem? mask k) as (λ _. ℕ) [ none ↦ 0 | some b ↦ b ])
      (let same : (i + 4) % 4 ≡ i % 4 = omega arith in same)

masked-unmask :
    (mask : Bytes) (i : ℕ) (payload : Bytes)
    → masked
        (mask_byte mask i
          ∷ mask_byte mask (i + 1)
          ∷ mask_byte mask (i + 1 + 1)
          ∷ mask_byte mask (i + 1 + 1 + 1)
          ∷ [])
        payload
      ≡ unmask mask i payload
unfolding unmask
masked-unmask mask i [] = refl
masked-unmask mask i (c ∷ payload) =
    let around : mask_byte mask (i + 1 + 1 + 1 + 1) ≡ mask_byte mask i =
      ap (mask_byte mask) (omega arith) ∙ mask_byte-around mask i in
    ap (◌∷◌ (bit_xor c (mask_byte mask i))) (
      ap
        (λ k.
          masked
            (mask_byte mask (i + 1)
              ∷ mask_byte mask (i + 1 + 1)
              ∷ mask_byte mask (i + 1 + 1 + 1)
              ∷ k
              ∷ [])
            payload)
        (sym around)
      ∙ masked-unmask mask (i + 1) payload)

masked-four : (mask payload : Bytes) → length mask ≡ 4 → masked mask payload ≡ unmask mask 0 payload
unfolding mask_byte
masked-four [] payload four = absurd (omega arith)
masked-four (a ∷ []) payload four = absurd (omega arith)
masked-four (a ∷ b ∷ []) payload four = absurd (omega arith)
masked-four (a ∷ b ∷ c ∷ []) payload four = absurd (omega arith)
masked-four (a ∷ b ∷ c ∷ d ∷ []) payload four = masked-unmask (a ∷ b ∷ c ∷ d ∷ []) 0 payload
masked-four (a ∷ b ∷ c ∷ d ∷ e ∷ mask) payload four = absurd (omega arith)

module _ (opcode : ℕ) (mask payload rest : Bytes) (is_opcode : opcode < 16) (four : length mask ≡ 4)
    (are_mask : AreBytes mask) (are_bytes : AreBytes payload)
    (fits : length payload ≤ max_payload) where
  body_read :
      read_body opcode true (length payload) (mask ++ (unmask mask 0 payload ++ rest))
      ≡ some (record { opcode = opcode; payload = payload }, rest)
  unfolding read_body
  body_read =
      rw
        (
          le→leb _ _ fits,
          recv_exact-append mask (unmask mask 0 payload ++ rest) 4 (sym four),
          recv_exact-append (unmask mask 0 payload) rest (length payload)
              (sym (length-unmask mask 0 payload)),
          unmask-unmask mask 0 payload are_mask are_bytes,
        )
        refl

big_endian-two : (n : ℕ) → n ≤ 65535 → big_endian 0 (n / 256 % 256 ∷ n % 256 ∷ []) ≡ n
unfolding big_endian
big_endian-two n h = omega arith

abbrev eight : ℕ → Bytes
eight n = map (λ shift. n / 2 ^ shift % 256) (56 ∷ 48 ∷ 40 ∷ 32 ∷ 24 ∷ 16 ∷ 8 ∷ 0 ∷ [])

big_endian-eight : (n : ℕ) → n ≤ max_payload → big_endian 0 (eight n) ≡ n
unfolding big_endian
big_endian-eight n h = omega arith

size-short : (n : ℕ) → n ≤ 125 → size_bytes n ≡ n ∷ []
unfolding size_bytes
size-short n h = ground arith

size-two : (n : ℕ) → 125 < n → n ≤ 65535 → size_bytes n ≡ 126 ∷ n / 256 % 256 ∷ n % 256 ∷ []
unfolding size_bytes
size-two n g h = ground arith

size-eight : (n : ℕ) → 65535 < n → size_bytes n ≡ 127 ∷ eight n
unfolding size_bytes
size-eight n g = ground arith

read-short : (n : ℕ) (s : Bytes) → n ≤ 125 → read_length n s ≡ some (n, s)
unfolding read_length
read-short n s h = ground arith

read-two :
    (n : ℕ) (s : Bytes) → n ≤ 65535 → read_length 126 (n / 256 % 256 ∷ n % 256 ∷ s) ≡ some (n, s)
unfolding read_length
read-two n s h =
    rw (recv_exact-append (n / 256 % 256 ∷ n % 256 ∷ []) s 2 refl, big_endian-two n h) refl

read-eight : (n : ℕ) (s : Bytes) → n ≤ max_payload → read_length 127 (eight n ++ s) ≡ some (n, s)
unfolding read_length
read-eight n s h = rw (recv_exact-append (eight n) s 8 refl, big_endian-eight n h) refl

-- A header with the mask bit is read, and then the body.
read_header :
    (opcode l n : ℕ) (ext s : Bytes)
    → opcode < 16
    → l < 128
    → read_length l (ext ++ s) ≡ some (n, s)
    → read_next_frame ((128 + opcode % 16) ∷ (((l + 128) ∷ ext) ++ s)) ≡ read_body opcode true n s
unfolding read_next_frame
read_header opcode l n ext s op small e =
    let fin : (128 + opcode % 16) / 128 % 2 ≡ 1 = omega arith in
    let code : (128 + opcode % 16) % 16 ≡ opcode = omega arith in
    let bit : (l + 128) / 128 % 2 ≡ 1 = omega arith in
    let len : (l + 128) % 128 ≡ l = omega arith in rw (fin, code, bit, len, e) refl

read_sized :
    (opcode n : ℕ) (s : Bytes)
    → opcode < 16
    → n ≤ max_payload
    → read_next_frame ((128 + opcode % 16) ∷ (set_mask_bit (size_bytes n) ++ s))
      ≡ read_body opcode true n s
read_sized opcode n s op h = elim (Bool-cases (leb n 125)) [
  | inl short ↦
      let small : n ≤ 125 = leb→le n 125 short in
      rw (size-short n small) (read_header opcode n n [] s op (omega arith) (read-short n s small))
  | inr long ↦ elim (Bool-cases (leb n 65535)) [
    | inl middle ↦
        let small : n ≤ 65535 = leb→le n 65535 middle in
        rw (size-two n (ground arith) small) (
          read_header opcode 126 n (n / 256 % 256 ∷ n % 256 ∷ []) s op (omega arith)
            (read-two n s small))
    | inr large ↦
        rw (size-eight n (ground arith))
          (read_header opcode 127 n (eight n) s op (omega arith) (read-eight n s h))
  ]
]

-- A client's frame, masked as RFC 6455 demands, is read back with its opcode and its payload, and
-- what follows it is left, if the payload is no longer than the limit.
pub read_next_frame-client_frame :
    (opcode : ℕ) (mask payload rest : Bytes)
    → opcode < 16
    → length mask ≡ 4
    → AreBytes mask
    → AreBytes payload
    → length payload ≤ max_payload
    → read_next_frame (client_frame opcode mask payload ++ rest)
      ≡ some (record { opcode = opcode; payload = payload }, rest)
read_next_frame-client_frame opcode mask payload rest op four m b fits =
    let tail = mask ++ (unmask mask 0 payload ++ rest) in
    let header = set_mask_bit (size_bytes (length payload)) in
    ap (λ k. read_next_frame ((128 + opcode % 16) ∷ ((header ++ (mask ++ k)) ++ rest)))
      (masked-four mask payload four)
    ∙ ap (λ k. read_next_frame ((128 + opcode % 16) ∷ k))
        (append_assoc header (mask ++ unmask mask 0 payload) rest
          ∙ ap (λ k. header ++ k) (append_assoc mask (unmask mask 0 payload) rest))
    ∙ read_sized opcode (length payload) tail op fits
    ∙ body_read opcode mask payload rest op four m b fits
