-- ===== src/Base/Maybe.antt =====
-- Steps that may fail without a message.
use mathlib.Core.Bool.{Bool, true, false}
use mathlib.Core.Option.{Option, none, some}

infixl 5 ◌>>=◌ ◌>>◌
abbrev pub ◌>>=◌ {ℓ κ} : {A : Type ℓ} {B : Type κ} → Option A → (A → Option B) → Option B
none >>= next = none
some a >>= next = next a

abbrev pub ◌>>◌ {ℓ} : {B : Type ℓ} → Option (Unit {0}) → Option B → Option B
none >> next = none
some _ >> next = next

-- `if (!test) return false;`
abbrev pub ensure : Bool → Option (Unit {0})
ensure true = some tt
ensure false = none
