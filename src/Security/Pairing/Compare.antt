-- ===== src/Security/Pairing/Compare.antt =====
-- What `constant_time_equals` decides (src/security/pairing.cpp).
use Prim.Native.Nat.{bit_or, bit_xor}
use ghostclaw.Base.{
  ℕ, zero, suc, ◌+◌, ◌/◌, ◌%◌, ◌<◌, ◌≤◌, ◌≡◌, refl, Bool, true, ◌&&◌, [], ◌∷◌, arith, ◌==◌, ==→eq,
  length, ◌↔◌, ◌*◌, ap₂, subst, ltb, not, if◌then◌else◌, eq→==,
}
use native.Mathlib.Decide.{ℕ_discrete}
use ghostclaw.Base.Table.{passes_under, passes_all, passes_pair}
use ghostclaw.Base.Text.{Bytes}
use ghostclaw.Security.Pairing.{
  hex_digit, to_hex, byte_at, diff_loop, sha256_hex, constant_time_equals,
}

-- What the loop needs of `^` and `|` on two bytes.
abbrev bits_hold : ℕ → ℕ → Bool
bits_hold x y =
    ltb (bit_xor x y) 256
    && (ltb (bit_or x y) 256
        && ((if bit_xor x y == 0 then x == y else not (x == y))
            && (if bit_or x y == 0 then x == 0 && y == 0 else not (x == 0 && y == 0))))

bits_table : passes_all bits_hold ≡ true
unfolding passes_under
bits_table = refl

bits : (x y : ℕ) → x < 256 → y < 256 → bits_hold x y ≡ true
bits x y h k = passes_pair bits_hold x y h k bits_table

xor-lt : (x y : ℕ) → x < 256 → y < 256 → bit_xor x y < 256
xor-lt x y h k = ground (arith, bits x y h k)

or-lt : (x y : ℕ) → x < 256 → y < 256 → bit_or x y < 256
or-lt x y h k = ground (arith, bits x y h k)

xor-eq-zero : (x y : ℕ) → x < 256 → y < 256 → bit_xor x y ≡ 0 → x ≡ y
xor-eq-zero x y h k e = ground (arith, bits x y h k)

xor_self : (x : ℕ) → x < 256 → bit_xor x x ≡ 0
xor_self x h = ground (arith, bits x x h h)

or-eq-zero : (x y : ℕ) → x < 256 → y < 256 → bit_or x y ≡ 0 → (x ≡ 0) × (y ≡ 0)
or-eq-zero x y h k e = ground (arith, bits x y h k)

or_zeros : bit_or 0 0 ≡ 0
or_zeros = refl

abbrev pub AreBytes : Bytes → Type 0
AreBytes [] = Unit
AreBytes (c ∷ s) = (c < 256) × AreBytes s

byte_at-lt : (s : Bytes) (i : ℕ) → AreBytes s → byte_at s i < 256
unfolding byte_at
byte_at-lt [] i h = omega arith
byte_at-lt (c ∷ s) zero h = h.0
byte_at-lt (c ∷ s) (suc i) h = byte_at-lt s i h.1

byte_at_ext :
    (a b : Bytes)
    → length a ≡ length b
    → ((i : ℕ) → i < length a → byte_at a i ≡ byte_at b i)
    → a ≡ b
unfolding byte_at
byte_at_ext [] [] e h = refl
byte_at_ext [] (y ∷ b) e h = absurd (omega arith)
byte_at_ext (x ∷ a) [] e h = absurd (omega arith)
byte_at_ext (x ∷ a) (y ∷ b) e h =
    ap₂ ◌∷◌ (h 0 (omega arith)) (byte_at_ext a b (omega arith) (λ i lt. h (suc i) (omega arith)))

module _ (a b : Bytes) (ha : AreBytes a) (hb : AreBytes b) where
  round-lt : (i : ℕ) → bit_xor (byte_at a i) (byte_at b i) % 256 < 256
  round-lt i = omega arith

  -- A final difference of 0 is one that no round has set.
  diff_loop-zero :
      (left i diff : ℕ)
      → diff < 256
      → diff_loop a b left i diff ≡ 0
      → (diff ≡ 0) × ((j : ℕ) → i ≤ j → j < i + left → byte_at a j ≡ byte_at b j)
  unfolding diff_loop
  diff_loop-zero zero i diff small e = (e, λ j p q. absurd (omega arith))
  diff_loop-zero (suc left) i diff small e =
      let x = byte_at a i in
      let y = byte_at b i in
      let d = bit_xor x y % 256 in
      let (none_set, equal_later) =
        diff_loop-zero left (i + 1) (bit_or diff d) (or-lt diff d small (round-lt i)) e in
      let (was_zero, round_zero) = or-eq-zero diff d small (round-lt i) none_set in
      let fits = xor-lt x y (byte_at-lt a i ha) (byte_at-lt b i hb) in
      let same : x ≡ y = xor-eq-zero x y (byte_at-lt a i ha) (byte_at-lt b i hb) (omega arith) in
      (
        was_zero,
        λ j p q. elim (ℕ_discrete i j) [
          | yes at ↦ subst (λ k. byte_at a k ≡ byte_at b k) at same
          | no ne ↦ equal_later j (omega arith) (omega arith)
        ],
      )

diff_loop_same : (a : Bytes) (left i : ℕ) → AreBytes a → diff_loop a a left i 0 ≡ 0
unfolding diff_loop
diff_loop_same a zero i h = refl
diff_loop_same a (suc left) i h =
    let e = xor_self (byte_at a i) (byte_at-lt a i h) in rw e (diff_loop_same a left (i + 1) h)

hex_digit-lt : (n : ℕ) → n < 16 → hex_digit n < 256
unfolding hex_digit
hex_digit-lt n h = ground arith

hex_digit-injective : (m n : ℕ) → m < 16 → n < 16 → hex_digit m ≡ hex_digit n → m ≡ n
unfolding hex_digit
hex_digit-injective m n h k e = ground arith

to_hex-AreBytes : (s : Bytes) → AreBytes s → AreBytes (to_hex s)
unfolding to_hex
to_hex-AreBytes [] h = tt
to_hex-AreBytes (c ∷ s) h = (
  hex_digit-lt (c / 16) (omega arith),
  (hex_digit-lt (c % 16) (omega arith), to_hex-AreBytes s h.1),
)

length-to_hex : (s : Bytes) → length (to_hex s) ≡ 2 * length s
unfolding to_hex
length-to_hex [] = refl
length-to_hex (c ∷ s) = omega (arith, length-to_hex s)

-- Different bytes have different hexadecimal texts.
pub to_hex-injective : (a b : Bytes) → AreBytes a → AreBytes b → to_hex a ≡ to_hex b → a ≡ b
unfolding to_hex
to_hex-injective [] [] ha hb e = refl
to_hex-injective [] (y ∷ b) ha hb e = cc
to_hex-injective (x ∷ a) [] ha hb e = cc
to_hex-injective (x ∷ a) (y ∷ b) ha hb e =
    let high : hex_digit (x / 16) ≡ hex_digit (y / 16) = cc in
    let low : hex_digit (x % 16) ≡ hex_digit (y % 16) = cc in
    let high' = hex_digit-injective (x / 16) (y / 16) (omega arith) (omega arith) high in
    let low' = hex_digit-injective (x % 16) (y % 16) (omega arith) (omega arith) low in
    ap₂ ◌∷◌ (omega arith) (to_hex-injective a b ha.1 hb.1 (cc))

-- What the code relies on of SHA-256: a digest is 32 bytes.
pub record IsDigest (sha256 : Bytes → Bytes) : Type 0 where
  pub size : (text : Bytes) → length (sha256 text) ≡ 32
  pub bytes : (text : Bytes) → AreBytes (sha256 text)

-- With a digest of 32 bytes, two texts compare equal exactly when their digests are equal.
pub constant_time_equals_iff :
    (sha256 : Bytes → Bytes) (a b : Bytes)
    → IsDigest sha256
    → (constant_time_equals sha256 a b ≡ true) ↔ (sha256 a ≡ sha256 b)
unfolding constant_time_equals sha256_hex
constant_time_equals_iff sha256 a b d =
    let la : length (to_hex (sha256 a)) ≡ 64 = omega (arith, length-to_hex (sha256 a), d.size a) in
    let lb : length (to_hex (sha256 b)) ≡ 64 = omega (arith, length-to_hex (sha256 b), d.size b) in
    let ha = to_hex-AreBytes (sha256 a) (d.bytes a) in
    let hb = to_hex-AreBytes (sha256 b) (d.bytes b) in
    rw (la, lb)
      (
        (λ e.
            let found =
              diff_loop-zero (to_hex (sha256 a)) (to_hex (sha256 b)) ha hb 64 0 0 (omega arith)
                (==→eq _ _ e) in
            to_hex-injective (sha256 a) (sha256 b) (d.bytes a) (d.bytes b) (
              byte_at_ext (to_hex (sha256 a)) (to_hex (sha256 b)) (omega arith)
                (λ i lt. found.1 i (omega arith) (omega arith)))),
        (λ e. rw (← e) (eq→== _ _ (diff_loop_same (to_hex (sha256 a)) 64 0 ha))),
      )
