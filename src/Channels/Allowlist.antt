-- ===== src/Channels/Allowlist.antt =====
-- src/channels/allowlist.cpp: the senders that a channel listens to.
use mathlib.Core.Bool.{false≢true}
use ghostclaw.Base.{
  ◌↔◌, ◌≡◌, ◌⊎◌, refl, sym, ◌∙◌, Bool, true, false, List, [], ◌∷◌, arith, if◌then◌else◌, inl, inr,
  Bool-cases,
}
use ghostclaw.Base.Text.{Bytes, codes, equal, equal_iff}
use ghostclaw.Common.Fs.{to_lower}

-- The loop over the entries.
unfoldable pub scan : Bytes → List Bytes → Bool
unfolding equal
scan normalized_sender [] = false
scan normalized_sender (entry ∷ rest) =
    let later = scan normalized_sender rest in
    if equal entry (codes "*")
    then true
    else if equal (to_lower entry) normalized_sender
    then true
    else later

unfoldable pub check_allowlist : Bytes → List Bytes → Bool
unfolding scan
check_allowlist sender allowlist = scan (to_lower sender) allowlist

-- Some entry is `*`, or is the sender's name up to the case of its letters.
abbrev pub Lists : Bytes → List Bytes → Type 0
Lists sender [] = ⊥
Lists sender (entry ∷ rest) =
    (entry ≡ codes "*") ⊎ (to_lower entry ≡ to_lower sender) ⊎ Lists sender rest

scan_iff :
    (sender : Bytes) (allowlist : List Bytes)
    → (scan (to_lower sender) allowlist ≡ true) ↔ Lists sender allowlist
unfolding scan
scan_iff sender [] = (λ h. ground arith, λ h. absurd h)
scan_iff sender (entry ∷ rest) =
    let later = scan_iff sender rest in
    let star = equal_iff entry (codes "*") in
    let same = equal_iff (to_lower entry) (to_lower sender) in
    elim (Bool-cases (equal entry (codes "*"))) [
      | inl all ↦ rw all (λ h. inl (star.0 all), λ h. refl)
      | inr named ↦ elim (Bool-cases (equal (to_lower entry) (to_lower sender))) [
        | inl here ↦ rw (named, here) (λ h. inr (inl (same.0 here)), λ h. refl)
        | inr there ↦
            rw (named, there)
              (
                λ h. inr (inr (later.0 h)),
                λ h. elim h [
                  | inl e ↦ absurd (false≢true (sym named ∙ star.1 e))
                  | inr (inl e) ↦ absurd (false≢true (sym there ∙ same.1 e))
                  | inr (inr l) ↦ later.1 l
                ],
              )
      ]
    ]

-- A sender is let through exactly when the list has the entry `*` or an entry that is the sender
-- up to the case of its letters.
pub check_allowlist_iff :
    (sender : Bytes) (allowlist : List Bytes)
    → (check_allowlist sender allowlist ≡ true) ↔ Lists sender allowlist
unfolding check_allowlist
check_allowlist_iff = scan_iff
