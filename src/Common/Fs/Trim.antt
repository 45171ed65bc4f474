-- ===== src/Common/Fs/Trim.antt =====
-- What `trim` and `to_lower` return (src/common/fs.cpp).
use mathlib.Core.List.{reverse-append, reverse-reverse}
use ghostclaw.Base.{
  ℕ, ◌≡◌, refl, true, false, ◌++◌, [], ◌∷◌, reverse, arith, sym, subst, ap, ◌∙◌, all, drop_while,
  if◌then◌else◌, all-append, null, Bool-cases, inl, inr,
}
use ghostclaw.Base.Text.{Bytes}
use ghostclaw.Common.Fs.{is_space, lower_byte, trim, to_lower}

-- the leading space that `drop_while` drops
abbrev spaces : Bytes → Bytes
spaces [] = []
spaces (c ∷ s) = let rest = spaces s in if is_space c then c ∷ rest else []

spaces_split : (s : Bytes) → s ≡ spaces s ++ drop_while is_space s
spaces_split [] = refl
spaces_split (c ∷ s) = ground (arith, spaces_split s)

all-spaces : (s : Bytes) → all is_space (spaces s) ≡ true
all-spaces [] = refl
all-spaces (c ∷ s) = ground (arith, all-spaces s)

-- The first byte is no space.
abbrev pub StartsSolid : Bytes → Type 0
StartsSolid [] = Unit
StartsSolid (c ∷ s) = is_space c ≡ false

StartsSolid-drop_while : (s : Bytes) → StartsSolid (drop_while is_space s)
StartsSolid-drop_while [] = tt
StartsSolid-drop_while (c ∷ s) = elim (Bool-cases (is_space c)) [
  | inl blank ↦ rw blank (StartsSolid-drop_while s)
  | inr solid ↦ rw solid solid
]

pub drop_while-solid : (s : Bytes) → StartsSolid s → drop_while is_space s ≡ s
drop_while-solid [] h = refl
drop_while-solid (c ∷ s) h = ground arith

all-reverse : (s : Bytes) → all is_space (reverse s) ≡ all is_space s
all-reverse [] = refl
all-reverse (c ∷ s) =
    ap (all is_space) (reverse-append (c ∷ []) s)
    ∙ all-append is_space (reverse s) (c ∷ [])
    ∙ ground (arith, all-reverse s)

StartsSolid-left : (a b : Bytes) → StartsSolid (a ++ b) → StartsSolid a
StartsSolid-left [] b h = tt
StartsSolid-left (c ∷ a) b h = h

-- `t` is `s` without the space at its two ends.
pub record IsTrimOf (s t : Bytes) : Type 0 where
  pub before : Bytes
  pub after : Bytes
  pub splits : s ≡ before ++ (t ++ after)
  pub before_blank : all is_space before ≡ true
  pub after_blank : all is_space after ≡ true
  pub starts_solid : StartsSolid t
  pub ends_solid : StartsSolid (reverse t)

trailing_split :
    (r : Bytes) → r ≡ reverse (drop_while is_space (reverse r)) ++ reverse (spaces (reverse r))
trailing_split r =
    sym (reverse-reverse r)
    ∙ ap reverse (spaces_split (reverse r))
    ∙ reverse-append (spaces (reverse r)) (drop_while is_space (reverse r))

-- A text is space, its trimmed form and space again, and the trimmed form neither starts nor
-- ends with space.
pub trim-IsTrimOf : (s : Bytes) → IsTrimOf s (trim s)
unfolding trim
trim-IsTrimOf s =
    let rest = drop_while is_space s in
    let tail = trailing_split rest in
    record {
      before = spaces s;
      after = reverse (spaces (reverse rest));
      splits = spaces_split s ∙ ap (◌++◌ (spaces s)) tail;
      before_blank = all-spaces s;
      after_blank = all-reverse (spaces (reverse rest)) ∙ all-spaces (reverse rest);
      starts_solid = StartsSolid-left _ _ (subst StartsSolid tail (StartsSolid-drop_while s));
      ends_solid =
          subst StartsSolid (sym (reverse-reverse (drop_while is_space (reverse rest))))
            (StartsSolid-drop_while (reverse rest));
    }

-- A text without space at its ends is left as it is.
pub trim-solid : (s : Bytes) → StartsSolid s → StartsSolid (reverse s) → trim s ≡ s
unfolding trim
trim-solid s h k = rw (drop_while-solid s h, drop_while-solid (reverse s) k) (reverse-reverse s)

pub trim_idem : (s : Bytes) → trim (trim s) ≡ trim s
trim_idem s = let t = trim-IsTrimOf s in trim-solid (trim s) t.starts_solid t.ends_solid

pub trim_nil : trim [] ≡ []
unfolding trim
trim_nil = refl

-- Lowering twice is lowering once.
pub to_lower_idem : (s : Bytes) → to_lower (to_lower s) ≡ to_lower s
unfolding to_lower lower_byte
to_lower_idem [] = refl
to_lower_idem (c ∷ s) = ground (arith, to_lower_idem s)

is_space-lower_byte : (c : ℕ) → is_space (lower_byte c) ≡ is_space c
unfolding is_space lower_byte
is_space-lower_byte c = ground arith

StartsSolid-to_lower : (s : Bytes) → StartsSolid s → StartsSolid (to_lower s)
unfolding to_lower
StartsSolid-to_lower [] h = tt
StartsSolid-to_lower (c ∷ s) h = is_space-lower_byte c ∙ h

to_lower-append : (a b : Bytes) → to_lower (a ++ b) ≡ to_lower a ++ to_lower b
unfolding to_lower
to_lower-append [] b = refl
to_lower-append (c ∷ a) b = ap (◌∷◌ (lower_byte c)) (to_lower-append a b)

to_lower-reverse : (s : Bytes) → to_lower (reverse s) ≡ reverse (to_lower s)
to_lower-reverse [] = unfold to_lower in refl
to_lower-reverse (c ∷ s) =
    ap to_lower (reverse-append (c ∷ []) s)
    ∙ to_lower-append (reverse s) (c ∷ [])
    ∙ ap (λ k. k ++ to_lower (c ∷ [])) (to_lower-reverse s)
    ∙ (unfold to_lower in sym (reverse-append (lower_byte c ∷ []) (to_lower s)))

-- Lowering the trimmed text, as every comparison of names does, is idempotent.
pub normalize_idem : (s : Bytes) → to_lower (trim (to_lower (trim s))) ≡ to_lower (trim s)
normalize_idem s =
    let t = trim-IsTrimOf s in
    let back =
      subst StartsSolid (to_lower-reverse (trim s))
        (StartsSolid-to_lower (reverse (trim s)) t.ends_solid) in
    ap to_lower (trim-solid (to_lower (trim s)) (StartsSolid-to_lower (trim s) t.starts_solid) back)
    ∙ to_lower_idem (trim s)

all-null : (s : Bytes) → null s ≡ true → all is_space s ≡ true
all-null [] h = refl
all-null (c ∷ s) h = ground (arith, h)

-- Where a text starts with a byte that is no space, something is left of it.
pub null-trim_solid : (c : ℕ) (s : Bytes) → is_space c ≡ false → null (trim (c ∷ s)) ≡ false
null-trim_solid c s solid = elim (Bool-cases (null (trim (c ∷ s)))) [
  | inr left ↦ left
  | inl gone ↦
      let cut = trim-IsTrimOf (c ∷ s) in
      let blank : all is_space (c ∷ s) ≡ true =
        ap (all is_space) cut.splits
        ∙ all-append is_space cut.before (trim (c ∷ s) ++ cut.after)
        ∙ ground (
          arith,
          cut.before_blank,
          cut.after_blank,
          all-null (trim (c ∷ s)) gone,
          all-append is_space (trim (c ∷ s)) cut.after,
        ) in
      absurd (ground (arith, blank, solid))
]
