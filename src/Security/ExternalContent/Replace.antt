-- ===== src/Security/ExternalContent/Replace.antt =====
-- What a replacement leaves of the text that it replaces (src/security/external_content.cpp).
use ghostclaw.Base.{
  ℕ, zero, suc, ◌+◌, ◌≤◌, ◌≡◌, refl, ap, sym, ◌∙◌, subst, true, false, List, [], ◌∷◌, ◌++◌, none,
  some, arith, length, length-drop, take-append-drop, append-nil, take, drop, map, inl, inr,
  Bool-cases, Option-cases,
}
use ghostclaw.Base.Text.{Bytes, index_of, is_prefix, Lacks}
use ghostclaw.Security.ExternalContent.{replace_loop}

-- The needle stands nowhere in the text.
abbrev pub Clean : Bytes → Bytes → Type 0
Clean needle [] = Unit
Clean needle (c ∷ s) = (is_prefix needle (c ∷ s) ≡ false) × Clean needle s

-- The needle starts nowhere in the first part of `front ++ back`.
abbrev CleanFront : Bytes → Bytes → Bytes → Type 0
CleanFront needle [] back = Unit
CleanFront needle (c ∷ front) back =
    (is_prefix needle (c ∷ (front ++ back)) ≡ false) × CleanFront needle front back

pub Clean-none : (b : ℕ) (n s : Bytes) → index_of (b ∷ n) s ≡ none → Clean (b ∷ n) s
unfolding index_of is_prefix
Clean-none b n [] h = tt
Clean-none b n (c ∷ s) h =
    let later : index_of (b ∷ n) s ≡ none = ground arith in (ground arith, Clean-none b n s later)

pub none-Clean : (b : ℕ) (n s : Bytes) → Clean (b ∷ n) s → index_of (b ∷ n) s ≡ none
unfolding index_of is_prefix
none-Clean b n [] h = refl
none-Clean b n (c ∷ s) (h, hs) = ground (arith, none-Clean b n s hs)

CleanFront-found :
    (n s : Bytes) (i : ℕ) → index_of n s ≡ some i → CleanFront n (take i s) (drop i s)
unfolding index_of
CleanFront-found n s zero h = tt
CleanFront-found n [] (suc i) h = tt
CleanFront-found n (c ∷ s) (suc i) h =
    let later : index_of n s ≡ some i = ground arith in
    (
      subst (λ k. is_prefix n (c ∷ k) ≡ false) (sym (take-append-drop i s)) (ground arith),
      CleanFront-found n s i later,
    )

CleanFront-Clean : (n s : Bytes) (i : ℕ) → Clean n s → CleanFront n (take i s) (drop i s)
CleanFront-Clean n s zero h = tt
CleanFront-Clean n [] (suc i) h = tt
CleanFront-Clean n (c ∷ s) (suc i) (h, hs) = (
  subst (λ k. is_prefix n (c ∷ k) ≡ false) (sym (take-append-drop i s)) h,
  CleanFront-Clean n s i hs,
)

Clean-drop : (n s : Bytes) (i : ℕ) → Clean n s → Clean n (drop i s)
Clean-drop n s zero h = h
Clean-drop n [] (suc i) h = tt
Clean-drop n (c ∷ s) (suc i) (h, hs) = Clean-drop n s i hs

-- A needle without the byte that follows `front` is found at the begin of `front ++ b ∷ back` only
-- if it is found in `front`.
prefix_within :
    (needle front back other : Bytes) (b : ℕ)
    → Lacks b needle
    → is_prefix needle (front ++ (b ∷ back)) ≡ true
    → is_prefix needle (front ++ other) ≡ true
unfolding is_prefix
prefix_within [] front back other b l h = refl
prefix_within (c ∷ needle) [] back other b (ne, l) h = absurd (ground arith)
prefix_within (c ∷ needle) (d ∷ front) back other b (ne, l) h =
    ground (arith, prefix_within needle front back other b l)

CleanFront-other :
    (needle front back other : Bytes) (b : ℕ)
    → Lacks b needle
    → CleanFront needle front other
    → CleanFront needle front (b ∷ back)
CleanFront-other needle [] back other b l h = tt
CleanFront-other needle (c ∷ front) back other b l (h, hs) = (
  elim (Bool-cases (is_prefix needle (c ∷ (front ++ (b ∷ back))))) [
    | inl found ↦ cc (prefix_within needle (c ∷ front) back other b l found)
    | inr lost ↦ lost
  ],
  CleanFront-other needle front back other b l hs,
)

Clean-append :
    (needle front back : Bytes)
    → CleanFront needle front back
    → Clean needle back
    → Clean needle (front ++ back)
Clean-append needle [] back h k = k
Clean-append needle (c ∷ front) back (h, hs) k = (h, Clean-append needle front back hs k)

-- A text without the needle's first byte.
pub Clean-lacking :
    (b : ℕ) (n front back : Bytes)
    → Lacks b front
    → Clean (b ∷ n) back
    → Clean (b ∷ n) (front ++ back)
unfolding is_prefix
Clean-lacking b n [] back l h = h
Clean-lacking b n (c ∷ front) back (ne, l) h = (ground arith, Clean-lacking b n front back l h)

pub Clean-Lacks : (b : ℕ) (n s : Bytes) → Lacks b s → Clean (b ∷ n) s
unfolding is_prefix
Clean-Lacks b n [] h = tt
Clean-Lacks b n (c ∷ s) (ne, h) = (ground arith, Clean-Lacks b n s h)

pub map-append {ℓ} :
    {A : Type ℓ} (f : A → A) (xs ys : List A) → map f (xs ++ ys) ≡ map f xs ++ map f ys
map-append f [] ys = refl
map-append f (x ∷ xs) ys = ap (◌∷◌ (f x)) (map-append f xs ys)

-- Two texts with a byte between them that the needle lacks.
pub Clean-between :
    (needle front back : Bytes) (b : ℕ)
    → Lacks b needle
    → Clean needle front
    → Clean needle (b ∷ back)
    → Clean needle (front ++ (b ∷ back))
Clean-between needle [] back b l h k = k
Clean-between needle (c ∷ front) back b l (h, hs) k = (
  elim (Bool-cases (is_prefix needle (c ∷ (front ++ (b ∷ back))))) [
    | inl found ↦ cc (
      prefix_within needle (c ∷ front) back [] b l found,
      ap (λ s. is_prefix needle (c ∷ s)) (append-nil front),
    )
    | inr lost ↦ lost
  ],
  Clean-between needle front back b l hs k,
)

map-take {ℓ} :
    {A : Type ℓ} (f : A → A) (n : ℕ) (xs : List A) → map f (take n xs) ≡ take n (map f xs)
map-take f zero xs = refl
map-take f (suc n) [] = refl
map-take f (suc n) (x ∷ xs) = ap (◌∷◌ (f x)) (map-take f n xs)

map-drop {ℓ} :
    {A : Type ℓ} (f : A → A) (n : ℕ) (xs : List A) → map f (drop n xs) ≡ drop n (map f xs)
map-drop f zero xs = refl
map-drop f (suc n) [] = refl
map-drop f (suc n) (x ∷ xs) = map-drop f n xs

-- `b ∷ n` is the folded needle that is looked for in the result, `r ∷ replaced` the folded
-- replacement: its first byte is not in the needle, and it lacks the needle's first byte.
module _ (fold : ℕ → ℕ) (b : ℕ) (n : Bytes) (r : ℕ) (replaced replacement : Bytes)
    (is_replacement : map fold replacement ≡ r ∷ replaced) (apart : Lacks r (b ∷ n))
    (free : Lacks b (r ∷ replaced)) where
  replaced-Clean :
      (text rest : Bytes) (pos : ℕ)
      → CleanFront (b ∷ n) (take pos (map fold text)) (drop pos (map fold text))
      → Clean (b ∷ n) (map fold rest)
      → Clean (b ∷ n) (map fold (take pos text ++ (replacement ++ rest)))
  replaced-Clean text rest pos front back =
      let shape : map fold (take pos text ++ (replacement ++ rest))
          ≡ take pos (map fold text) ++ (r ∷ (replaced ++ map fold rest)) =
        map-append fold (take pos text) (replacement ++ rest)
        ∙ rw (map-take fold pos text, map-append fold replacement rest, is_replacement) refl in
      rw shape (
        Clean-append (b ∷ n) (take pos (map fold text)) (r ∷ (replaced ++ map fold rest))
          (CleanFront-other (b ∷ n) (take pos (map fold text)) (replaced ++ map fold rest)
            (drop pos (map fold text)) r apart front)
          (Clean-lacking b n (r ∷ replaced) (map fold rest) free back))

  -- The needle itself, if it is the one that is replaced.
  pub replace_loop-Clean :
      (fuel : ℕ) (m : ℕ) (needle text : Bytes)
      → map fold (m ∷ needle) ≡ b ∷ n
      → length text ≤ fuel
      → Clean (b ∷ n) (map fold (replace_loop fold fuel (m ∷ needle) replacement text))
  unfolding replace_loop
  replace_loop-Clean zero m needle [] e h = tt
  replace_loop-Clean zero m needle (c ∷ text) e h = absurd (omega arith)
  replace_loop-Clean (suc fuel) m needle text e h =
      elim (Option-cases (index_of (map fold (m ∷ needle)) (map fold text))) [
        | inl lost ↦
            let same : replace_loop fold (suc fuel) (m ∷ needle) replacement text ≡ text =
              ground (arith, lost) in
            rw same (Clean-none b n (map fold text) (rw (← e) lost))
        | inr (pos, found) ↦
            let rest = drop (pos + length (m ∷ needle)) text in
            let same : replace_loop fold (suc fuel) (m ∷ needle) replacement text
                ≡ take pos text
                  ++ (replacement ++ replace_loop fold fuel (m ∷ needle) replacement rest) =
              ground (arith, found) in
            rw same (
              replaced-Clean text (replace_loop fold fuel (m ∷ needle) replacement rest) pos
                (CleanFront-found (b ∷ n) (map fold text) pos (rw (← e) found))
                (replace_loop-Clean fuel m needle rest e
                  (omega (arith, length-drop (pos + length (m ∷ needle)) text))))
      ]

  -- Another needle, of which the text is clean before.
  pub replace_loop-keeps_Clean :
      (fuel : ℕ) (needle text : Bytes)
      → Clean (b ∷ n) (map fold text)
      → Clean (b ∷ n) (map fold (replace_loop fold fuel needle replacement text))
  unfolding replace_loop
  replace_loop-keeps_Clean zero needle text h = h
  replace_loop-keeps_Clean (suc fuel) needle text h =
      elim (Option-cases (index_of (map fold needle) (map fold text))) [
        | inl lost ↦
            let same : replace_loop fold (suc fuel) needle replacement text ≡ text =
              ground (arith, lost) in
            rw same h
        | inr (pos, found) ↦
            let rest = drop (pos + length needle) text in
            let same : replace_loop fold (suc fuel) needle replacement text
                ≡ take pos text ++ (replacement ++ replace_loop fold fuel needle replacement rest) =
              ground (arith, found) in
            rw same (
              replaced-Clean text (replace_loop fold fuel needle replacement rest) pos
                (CleanFront-Clean (b ∷ n) (map fold text) pos h)
                (replace_loop-keeps_Clean fuel needle rest (
                  subst (Clean (b ∷ n)) (sym (map-drop fold (pos + length needle) text))
                    (Clean-drop (b ∷ n) (map fold text) (pos + length needle) h))))
      ]
