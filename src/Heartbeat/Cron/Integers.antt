-- ===== src/Heartbeat/Cron/Integers.antt =====
-- The integers of src/heartbeat/cron.cpp: parse_int, and comparisons with the bounds of a field.
use ghostclaw.Base.{
  ℕ, zero, suc, ◌+◌, ◌-◌, ◌*◌, Bool, true, false, ◌&&◌, not, [], ◌∷◌, ◌++◌, ltb, leb, ◌==◌,
  if◌then◌else◌, null, all,
}
use ghostclaw.Base.Text.{Bytes, codes}
use ghostclaw.Common.{Result, ok, err}

-- An `int`; `negsuc n` is -(n + 1).
pub data ℤ : Type 0 where
  pos : ℕ → ℤ
  negsuc : ℕ → ℤ

abbrev pub negated : ℕ → ℤ
negated zero = pos 0
negated (suc n) = negsuc n

unfoldable pub is_digit : ℕ → Bool
is_digit c = leb b'0' c && leb c b'9'

unfoldable pub digits_value : ℕ → Bytes → ℕ
digits_value value [] = value
digits_value value (c ∷ s) = digits_value (value * 10 + (c - b'0')) s

abbrev pub is_number : Bytes → ℕ → Bool
is_number digits most =
    not (null digits) && (all is_digit digits && leb (digits_value 0 digits) most)

-- `std::from_chars`, which must take the whole text.
unfoldable pub parse_int : Bytes → Result ℤ
unfolding is_digit digits_value
parse_int value =
    let failure : Result ℤ = err (codes "invalid integer: " ++ value) in
    elim value [
      | [] ↦ failure
      | c ∷ s ↦
          if c == b'-'
          then (if is_number s 2147483648 then ok (negated (digits_value 0 s)) else failure)
          else if is_number (c ∷ s) 2147483647
          then ok (pos (digits_value 0 (c ∷ s)))
          else failure
    ]

abbrev pub is_positive : ℤ → Bool
is_positive (pos n) = ltb 0 n
is_positive (negsuc n) = false

abbrev pub value_of : ℤ → ℕ
value_of (pos n) = n
value_of (negsuc n) = 0

-- `value < bound` and `bound < value` for a bound that is not negative
abbrev pub is_less : ℤ → ℕ → Bool
is_less (pos n) bound = ltb n bound
is_less (negsuc n) bound = true

abbrev pub is_more : ℤ → ℕ → Bool
is_more (pos n) bound = ltb bound n
is_more (negsuc n) bound = false

-- `a > b`
abbrev pub is_above : ℤ → ℤ → Bool
is_above (pos a) (pos b) = ltb b a
is_above (pos a) (negsuc b) = true
is_above (negsuc a) (pos b) = false
is_above (negsuc a) (negsuc b) = ltb a b
