-- ===== src/Common.antt =====
-- include/ghostclaw/common/result.hpp: a value or an error message, and the modules of src/common.
pub mod Fs
pub mod Json
pub mod Toml
use ghostclaw.Base.{◌≡◌, refl, ◌⊎◌, inl, inr, Bool, true, false, Option, none, some}
use ghostclaw.Base.Text.{Bytes}

pub data Result {ℓ} (A : Type ℓ) : Type ℓ where
  ok : A → Result A
  err : Bytes → Result A

-- What follows a test, and what follows a call whose failure is passed on.
infixl 5 ◌>>◌ ◌>>=◌
abbrev pub ◌>>◌ {κ} : {B : Type κ} → Result (Unit {0}) → Result B → Result B
ok _ >> rest = rest
err message >> rest = err message

abbrev pub ◌>>=◌ {ℓ κ} : {B : Type κ} {A : Type ℓ} → Result A → (A → Result B) → Result B
err message >>= rest = err message
ok value >>= rest = rest value

-- `if (!test) return failure(message);`
abbrev pub guard : Bool → Bytes → Result (Unit {0})
guard false message = err message
guard true message = ok tt

-- A call on a state that is passed on, and what follows where it succeeds.
abbrev pub if_ok {ℓ κ μ} :
    {A : Type ℓ} {B : Type κ} {S : Type μ} → Result A × S → (A → S → Result B × S) → Result B × S
if_ok (ok a, s) next = next a s
if_ok (err e, s) next = (err e, s)

-- A search that reports `npos` or `end()` as an error.
abbrev pub require {ℓ} : {A : Type ℓ} → Option A → Bytes → Result A
require none e = err e
require (some a) e = ok a

abbrev pub is_ok {ℓ} : {A : Type ℓ} → Result A → Bool
is_ok (ok _) = true
is_ok (err _) = false

pub Result-cases {ℓ} :
    {A : Type ℓ} (r : Result A) → ((a : A) × (r ≡ ok a)) ⊎ ((e : Bytes) × (r ≡ err e))
Result-cases (ok a) = inl (a, refl)
Result-cases (err e) = inr (e, refl)

-- What a chain of calls returned, its first call and the rest returned.
pub bind-ok {ℓ κ} :
    {A : Type ℓ} {B : Type κ} (first : Result A) (rest : A → Result B) {out : B}
    → (first >>= rest) ≡ ok out
    → (a : A) × (first ≡ ok a) × (rest a ≡ ok out)
bind-ok (err message) rest h = cc
bind-ok (ok a) rest h = (a, refl, h)

pub then-ok {ℓ} :
    {B : Type ℓ} (test : Result (Unit {0})) (rest : Result B) {out : B}
    → (test >> rest) ≡ ok out
    → (test ≡ ok tt) × (rest ≡ ok out)
then-ok (err message) rest h = cc
then-ok (ok _) rest h = (refl, h)
