-- ===== src/Security/Pairing.antt =====
-- src/security/pairing.cpp: pairing by a one-time code, with a lockout after failed attempts.
-- SHA-256 and the random generator are not part of the repository: `sha256` gives the digest's
-- bytes, and the bytes that the generator draws for a token are an argument of `verify`.
pub mod Compare
pub mod Attempts
use Prim.Native.Nat.{bit_or, bit_xor}
use ghostclaw.Base.{
  ℕ, ◌+◌, ◌-◌, ◌*◌, ◌/◌, ◌%◌, ◌^◌, Bool, true, false, ◌&&◌, List, [], ◌∷◌, ◌++◌, Option, none, some,
  ltb, leb, ◌==◌, max, length, if◌then◌else◌, zero, suc,
}
use ghostclaw.Base.Text.{Bytes}

-- `std::hex` digits
unfoldable pub hex_digit : ℕ → ℕ
hex_digit n = if ltb n 10 then b'0' + n else b'a' + (n - 10)

-- `setw(2) << setfill('0')` writes both digits of a byte.
unfoldable pub to_hex : Bytes → Bytes
unfolding hex_digit
to_hex [] = []
to_hex (b ∷ s) = hex_digit (b / 16) ∷ (hex_digit (b % 16) ∷ to_hex s)

-- `i < s.size() ? s[i] : 0`
unfoldable pub byte_at : Bytes → ℕ → ℕ
byte_at [] i = 0
byte_at (c ∷ s) zero = c
byte_at (c ∷ s) (suc i) = byte_at s i

-- The loop over `i`, with the rounds that are left; a `char` has eight bits.
unfoldable pub diff_loop : Bytes → Bytes → ℕ → ℕ → ℕ → ℕ
unfolding byte_at
diff_loop a b zero i diff = diff
diff_loop a b (suc left) i diff =
    diff_loop a b left (i + 1) (bit_or diff (bit_xor (byte_at a i) (byte_at b i) % 256))

unfoldable pub lockout_duration : ℕ
lockout_duration = 5 * 60 * 1000000000

pub data PairingResultType : Type 0 where
  success failed locked_out : PairingResultType

pub record PairingResult : Type 0 where
  pub type : PairingResultType
  pub bearer_token : Bytes
  pub retry_after_seconds : ℕ

pub record PairingState : Type 0 where
  pub code : Option Bytes
  pub failed_attempts : ℕ
  pub max_attempts : ℕ
  pub locked_until : Option ℕ
  pub token_hashes : List Bytes

abbrev pub new_pairing : Bytes → ℕ → PairingState
new_pairing code max_attempts = record {
  code = some code;
  failed_attempts = 0;
  max_attempts = max_attempts;
  locked_until = none;
  token_hashes = [];
}

-- `locked_until_.has_value() && now < *locked_until_`, with the time
unfoldable pub lock_left : PairingState → ℕ → Option ℕ
lock_left s now = elim s.locked_until [
  | none ↦ none
  | some until ↦ if ltb now until then some (until - now) else none
]

module _ (sha256 : Bytes → Bytes) where
  unfoldable pub sha256_hex : Bytes → Bytes
  sha256_hex text = to_hex (sha256 text)

  unfoldable pub constant_time_equals : Bytes → Bytes → Bool
  unfolding sha256_hex diff_loop
  constant_time_equals a b =
      let hash_a = sha256_hex a in
      let hash_b = sha256_hex b in
      let max_size = max (length hash_a) (length hash_b) in
      diff_loop hash_a hash_b max_size 0 (bit_xor (length hash_a) (length hash_b) % 256) == 0

  -- `code_.has_value() && constant_time_equals(*code_, code)`, with the codes that are compared
  unfoldable pub code_matches : PairingState → Bytes → Bool × List Bytes
  unfolding constant_time_equals
  code_matches s code = elim s.code [
    | none ↦ (false, [])
    | some c ↦ (constant_time_equals c code, code ∷ [])
  ]

  -- The branch of a matching code: the code is used up.
  unfoldable pub accept : PairingState → Bytes → PairingState × PairingResult
  unfolding sha256_hex
  accept s random =
      let token = to_hex random in
      (
        record s {
          failed_attempts = 0;
          locked_until = none;
          token_hashes = s.token_hashes ++ sha256_hex token ∷ [];
          code = none;
        },
        record { type = success; bearer_token = token; retry_after_seconds = 0 },
      )

  -- The branch of a wrong code; the counter is a `uint32_t`.
  unfoldable pub reject : PairingState → ℕ → PairingState × PairingResult
  unfolding lockout_duration
  reject s now =
      let counted = record s { failed_attempts = (s.failed_attempts + 1) % 2 ^ 32 } in
      if leb counted.max_attempts counted.failed_attempts
      then (
        record counted { locked_until = some (now + lockout_duration) },
        record {
          type = locked_out;
          bearer_token = [];
          retry_after_seconds = lockout_duration / 1000000000;
        },
      )
      else (counted, record { type = failed; bearer_token = []; retry_after_seconds = 0 })

  -- The second part holds the codes that `constant_time_equals` was called on.
  unfoldable pub verify :
      PairingState → ℕ → Bytes → Bytes → (PairingState × PairingResult) × List Bytes
  unfolding code_matches accept reject
  verify s now random code = elim (lock_left s now) [
    | some left ↦ (
      (s, record { type = locked_out; bearer_token = []; retry_after_seconds = left / 1000000000 }),
      [],
    )
    | none ↦
        let (matched, compared) = code_matches s code in
        (if matched then accept s random else reject s now, compared)
  ]
