-- ===== src/Tests/Paired.antt =====
-- Pairing at concrete inputs, with a hash of 32 bytes that reads the first byte of the text.
use ghostclaw.Base.{
  ℕ, ◌+◌, ◌≡◌, ◌↔◌, ◌≤◌, ◌<◌, ◌%◌, refl, List, [], ◌∷◌, none, true, arith, length, zero, suc,
}
use ghostclaw.Base.Text.{Bytes, codes}
use ghostclaw.Security.Pairing.{
  PairingState, success, new_pairing, lock_left, constant_time_equals, lockout_duration,
}
use ghostclaw.Security.Pairing.Compare.{AreBytes, IsDigest, constant_time_equals_iff}
use ghostclaw.Security.Pairing.Attempts.{
  Attempt, verify_attempt, run, successes, guesses, verify-success_iff, pairs_once, guesses-le-max,
}

abbrev repeat : ℕ → ℕ → Bytes
repeat zero b = []
repeat (suc n) b = b ∷ repeat n b

-- a stand-in for the digest
abbrev first_byte : Bytes → ℕ
first_byte [] = 0
first_byte (c ∷ s) = c % 256

abbrev digest : Bytes → Bytes
digest text = repeat 32 (first_byte text)

repeat-AreBytes : (n b : ℕ) → b < 256 → AreBytes (repeat n b)
repeat-AreBytes zero b h = tt
repeat-AreBytes (suc n) b h = (h, repeat-AreBytes n b h)

first_byte-lt : (text : Bytes) → first_byte text < 256
first_byte-lt [] = omega arith
first_byte-lt (c ∷ s) = omega arith

digest-IsDigest : IsDigest digest
digest-IsDigest = record {
  size = λ text. refl;
  bytes = λ text. repeat-AreBytes 32 (first_byte text) (first_byte-lt text);
}

abbrev guess : ℕ → Bytes → Attempt
guess now code = record { now = now; random = 1 ∷ 2 ∷ []; code = code }

abbrev state : PairingState
state = new_pairing (codes "123456") 3

unlocked : lock_left state 10 ≡ none
unfolding lock_left
unlocked = refl

verify-success_iff_example :
    (verify_attempt digest state (guess 10 (codes "123456"))).1.type ≡ success
verify-success_iff_example =
    (verify-success_iff digest state (guess 10 (codes "123456")) digest-IsDigest).1
      (codes "123456", unlocked, refl, refl)

abbrev guesses_made : List Attempt
guesses_made = guess 10 (codes "9") ∷ guess 20 (codes "123456") ∷ guess 30 (codes "123456") ∷ []

pairs_once_example :
    (successes digest state guesses_made ≤ 1)
    × (length (run digest state guesses_made).token_hashes
        ≡ length state.token_hashes + successes digest state guesses_made)
pairs_once_example = pairs_once digest state guesses_made

guesses-le-max_example : guesses digest (new_pairing (codes "123456") 3) guesses_made ≤ 3
guesses-le-max_example =
    guesses-le-max digest (codes "123456") 3 10 guesses_made (omega arith) (omega arith)
      (omega arith, (omega arith, (omega arith, tt)))
      (unfold lockout_duration in (omega arith, (omega arith, (omega arith, tt))))

constant_time_equals_iff_example :
    (constant_time_equals digest (codes "ab") (codes "ac") ≡ true)
    ↔ (digest (codes "ab") ≡ digest (codes "ac"))
constant_time_equals_iff_example =
    constant_time_equals_iff digest (codes "ab") (codes "ac") digest-IsDigest
