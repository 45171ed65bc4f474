-- ===== src/Base/Table.antt =====
-- Facts about bytes that are checked at every byte.
use Prim.Native.Nat.{ℕ, zero, suc, ◌<◌, bit_xor}
use mathlib.Core.Bool.{Bool, true, ◌&&◌}
use mathlib.Core.Path.{◌≡◌, refl}
use native.Mathlib.Decide.{ℕ_discrete}
use native.Mathlib.Omega.{arith}
use ghostclaw.Base.Tests.{◌==◌, ==→eq}

-- The test passes for each number that is less than the bound.
unfoldable pub passes_under : (ℕ → Bool) → ℕ → Bool
passes_under test zero = true
passes_under test (suc bound) = passes_under test bound && test bound

pub passes_at :
    (test : ℕ → Bool) (bound : ℕ) {k : ℕ}
    → k < bound
    → passes_under test bound ≡ true
    → test k ≡ true
unfolding passes_under
passes_at test zero small h = absurd (omega arith)
passes_at test (suc bound) {k} small h = elim (ℕ_discrete k bound) [
  | yes last ↦ rw last (ground arith)
  | no below ↦ passes_at test bound (omega arith) (ground arith)
]

-- A test of every pair of bytes.
abbrev pub passes_all : (ℕ → ℕ → Bool) → Bool
passes_all test = passes_under (λ x. passes_under (test x) 256) 256

pub passes_pair :
    (test : ℕ → ℕ → Bool) (x y : ℕ) → x < 256 → y < 256 → passes_all test ≡ true → test x y ≡ true
passes_pair test x y hx hy table =
    passes_at (test x) 256 hy (passes_at (λ z. passes_under (test z) 256) 256 hx table)

xor_table : passes_all (λ x y. bit_xor (bit_xor x y) y == x) ≡ true
unfolding passes_under
xor_table = refl

-- A byte that is masked twice is as it was.
pub xor-xor : (x y : ℕ) → x < 256 → y < 256 → bit_xor (bit_xor x y) y ≡ x
xor-xor x y hx hy =
    ==→eq (bit_xor (bit_xor x y) y) x
      (passes_pair (λ a b. bit_xor (bit_xor a b) b == a) x y hx hy xor_table)
