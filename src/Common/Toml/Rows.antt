-- ===== src/Common/Toml/Rows.antt =====
-- A line that gives a key a text (src/common/toml.cpp).
use mathlib.Core.Bool.{false≢true}
use mathlib.Core.List.{reverse-append, reverse-reverse}
use ghostclaw.Base.{
  all-append, ℕ, ◌+◌, ◌-◌, ◌≡◌, ◌≢◌, refl, ap, sym, ◌∙◌, subst, Bool, true, false, not, ◌&&◌, ◌||◌,
  List, [], ◌∷◌, ◌++◌, some, arith, if◌then◌else◌, null, length, take, drop, reverse, all, ◌==◌,
  inl, inr, Bool-cases, append_assoc, take-append, drop_while,
}
use ghostclaw.Base.Text.{Bytes, codes, Lacks, index_of, index_of-append}
use ghostclaw.Common.{ok}
use ghostclaw.Common.Fs.{trim, is_space}
use ghostclaw.Common.Fs.Trim.{trim-solid, StartsSolid, drop_while-solid}
use ghostclaw.Common.Json.Field.{drop-quote}
use ghostclaw.Common.Json.Flat.{set_entry}
use ghostclaw.Common.Toml.{
  Values, strip_loop, strip_comment, starts_byte, ends_byte, without_cr, clean, read_line,
  quote_byte, quote_loop, quote_toml_string,
}

-- A byte that may stand in a bare key.
abbrev pub is_plain : ℕ → Bool
is_plain c =
    not (is_space c)
    && (not (c == b'"')
        && (not (c == b'#') && (not (c == b'=') && (not (c == b'[') && not (c == b'\\')))))

pub record IsKey (key : Bytes) : Type 0 where
  pub there : null key ≡ false
  pub plain : all is_plain key ≡ true

-- The line that gives a key a text.
abbrev pub row : Bytes → Bytes → Bytes
row key value = key ++ (codes " = " ++ quote_toml_string value)

pub quote_solid : is_space b'"' ≡ false
unfolding is_space
quote_solid = refl

quote-split :
    (ch : ℕ) (value t : Bytes)
    → quote_loop (ch ∷ value) ++ t ≡ quote_byte ch ++ (quote_loop value ++ t)
unfolding quote_loop
quote-split ch value t = append_assoc (quote_byte ch) (quote_loop value) t

strip-byte :
    (b : Bool) (ch : ℕ) (t : Bytes)
    → ((c : Bool) → strip_loop c true t ≡ t)
    → strip_loop b true (quote_byte ch ++ t) ≡ quote_byte ch ++ t
unfolding strip_loop quote_byte
strip-byte b ch t h = ground (arith, h true, h false)

strip-quoted :
    (value : Bytes) (b : Bool)
    → strip_loop b true (quote_loop value ++ b'"' ∷ []) ≡ quote_loop value ++ b'"' ∷ []
strip-quoted [] b = unfold strip_loop quote_loop in ground arith
strip-quoted (ch ∷ value) b =
    rw (quote-split ch value (b'"' ∷ []))
      (strip-byte b ch (quote_loop value ++ b'"' ∷ []) (strip-quoted value))

strip-plain :
    (key rest : Bytes)
    → all is_plain key ≡ true
    → strip_loop false false (key ++ rest) ≡ key ++ strip_loop false false rest
unfolding strip_loop
strip-plain [] rest h = refl
strip-plain (c ∷ key) rest h = ground (arith, h, strip-plain key rest)

strip-row :
    (key value : Bytes) → all is_plain key ≡ true → strip_comment (row key value) ≡ row key value
unfolding strip_comment quote_toml_string strip_loop
strip-row key value h =
    strip-plain key (codes " = " ++ quote_toml_string value) h
    ∙ ap (λ t. key ++ (codes " = \"" ++ t)) (strip-quoted value false)

-- A text that ends in a quote.
module _ (front : Bytes) where
  pub reverse-quote : reverse (front ++ b'"' ∷ []) ≡ b'"' ∷ reverse front
  reverse-quote = reverse-append front (b'"' ∷ [])

  ends_other : (b : ℕ) → (b'"' == b) ≡ false → ends_byte b (front ++ b'"' ∷ []) ≡ false
  ends_other b h = ap (starts_byte b) reverse-quote ∙ h

  pub ends_solid : StartsSolid (reverse (front ++ b'"' ∷ []))
  ends_solid = subst StartsSolid (sym reverse-quote) quote_solid

row-split :
    (key value : Bytes) → row key value ≡ (key ++ (codes " = \"" ++ quote_loop value)) ++ b'"' ∷ []
unfolding quote_toml_string
row-split key value = sym (append_assoc key (codes " = \"" ++ quote_loop value) (b'"' ∷ []))

StartsSolid-key : (key rest : Bytes) → IsKey key → StartsSolid (key ++ rest)
StartsSolid-key [] rest k = absurd (false≢true (sym k.there))
StartsSolid-key (c ∷ key) rest k = ground (arith, k.plain)

no_bracket : (key rest : Bytes) → IsKey key → starts_byte b'[' (key ++ rest) ≡ false
no_bracket [] rest k = absurd (false≢true (sym k.there))
no_bracket (c ∷ key) rest k = ground (arith, k.plain)

pub clean-row : (key value : Bytes) → IsKey key → clean (row key value) ≡ row key value
unfolding clean
clean-row key value k =
    let whole = row-split key value in
    let uncut : without_cr (row key value) ≡ row key value =
      ap (λ b. if b then take (length (row key value) - 1) (row key value) else row key value)
        (ap (ends_byte b'\r') whole
          ∙ ends_other (key ++ (codes " = \"" ++ quote_loop value)) b'\r' refl) in
    ap (λ t. trim (strip_comment t)) uncut
    ∙ ap trim (strip-row key value k.plain)
    ∙ trim-solid (row key value) (StartsSolid-key key _ k) (
        subst (λ t. StartsSolid (reverse t)) (sym whole)
          (ends_solid (key ++ (codes " = \"" ++ quote_loop value))))

all-cons {ℓ} :
    {A : Type ℓ} (p : A → Bool) (x : A) (xs : List A)
    → all p (x ∷ xs) ≡ true
    → (p x ≡ true) × (all p xs ≡ true)
all-cons p x xs h = (ground (arith, h), ground (arith, h))

all-reverse {ℓ} :
    {A : Type ℓ} (p : A → Bool) (xs : List A) → all p xs ≡ true → all p (reverse xs) ≡ true
all-reverse p [] h = refl
all-reverse p (x ∷ xs) h =
    let (one, more) = all-cons p x xs h in
    ap (all p) (reverse-append (x ∷ []) xs)
    ∙ all-append p (reverse xs) (x ∷ [])
    ∙ ground (arith, one, all-reverse p xs more)

plain_solid : (s : Bytes) → all is_plain s ≡ true → StartsSolid s
plain_solid [] h = tt
plain_solid (c ∷ s) h = ground (arith, (all-cons is_plain c s h).0)

equals_odd : (c : ℕ) → is_plain c ≡ true → c ≢ b'='
unfolding is_space
equals_odd c h e = false≢true (subst (λ x. is_plain x ≡ true) e h)

newline_odd : (c : ℕ) → is_plain c ≡ true → c ≢ b'\n'
unfolding is_space
newline_odd c h e = false≢true (subst (λ x. is_plain x ≡ true) e h)

Lacks-plain :
    (b : ℕ) (key t : Bytes)
    → ((c : ℕ) → is_plain c ≡ true → c ≢ b)
    → all is_plain key ≡ true
    → Lacks b t
    → Lacks b (key ++ t)
Lacks-plain b [] t odd h lacks = lacks
Lacks-plain b (c ∷ key) t odd h lacks =
    let (one, more) = all-cons is_plain c key h in (odd c one, Lacks-plain b key t odd more lacks)

Lacks-quote_byte :
    (ch : ℕ) (t : Bytes) → ch ≢ b'\n' → Lacks b'\n' t → Lacks b'\n' (quote_byte ch ++ t)
unfolding quote_byte
Lacks-quote_byte ch t other lacks = elim (Bool-cases (ch == b'"' || ch == b'\\')) [
  | inl quoted ↦ rw quoted ((λ e. absurd (omega (arith, e))), (other, lacks))
  | inr bare ↦ rw bare (other, lacks)
]

Lacks-quoted : (value : Bytes) → Lacks b'\n' value → Lacks b'\n' (quote_loop value ++ b'"' ∷ [])
Lacks-quoted [] h = unfold quote_loop in ((λ e. absurd (omega (arith, e))), tt)
Lacks-quoted (ch ∷ value) (other, h) =
    subst (Lacks b'\n') (sym (quote-split ch value (b'"' ∷ [])))
      (Lacks-quote_byte ch _ other (Lacks-quoted value h))

odd : (c : ℕ) → (c == b'\n') ≡ false → c ≢ b'\n'
odd c h e = absurd (ground (arith, h, e))

pub row-Lacks : (key value : Bytes) → IsKey key → Lacks b'\n' value → Lacks b'\n' (row key value)
unfolding quote_toml_string
row-Lacks key value k line =
    Lacks-plain b'\n' key (codes " = \"" ++ (quote_loop value ++ b'"' ∷ [])) newline_odd k.plain
      (odd 32 refl, (odd 61 refl, (odd 32 refl, (odd 34 refl, Lacks-quoted value line))))

space_odd : Lacks b'=' (codes " ")
space_odd = ((λ e. absurd (omega (arith, e))), tt)

-- A key and the space behind it.
trim-key : (key : Bytes) → IsKey key → trim (key ++ codes " ") ≡ key
unfolding trim is_space
trim-key key k =
    ap (λ t. reverse (drop_while is_space (reverse t)))
      (drop_while-solid (key ++ codes " ") (StartsSolid-key key (codes " ") k))
    ∙ ap (λ t. reverse (drop_while is_space t)) (reverse-append key (codes " "))
    ∙ ap reverse (
        drop_while-solid (reverse key)
          (plain_solid (reverse key) (all-reverse is_plain key k.plain)))
    ∙ reverse-reverse key

trim-quoted : (value : Bytes) → trim (b' ' ∷ quote_toml_string value) ≡ quote_toml_string value
trim-quoted value =
    let front = b'"' ∷ quote_loop value in
    let once : trim (b' ' ∷ (front ++ b'"' ∷ [])) ≡ trim (front ++ b'"' ∷ []) =
      unfold trim is_space in refl in
    unfold quote_toml_string in
    once ∙ trim-solid (front ++ b'"' ∷ []) quote_solid (ends_solid front)

null-key : (key rest : Bytes) → IsKey key → null (key ++ rest) ≡ false
null-key [] rest k = absurd (false≢true (sym k.there))
null-key (c ∷ key) rest k = refl

module _ (key value : Bytes) (k : IsKey key) where
  abbrev name : Bytes
  name = key ++ codes " "

  abbrev text : Bytes
  text = b' ' ∷ quote_toml_string value

  row-name : row key value ≡ name ++ (b'=' ∷ text)
  row-name = sym (append_assoc key (codes " ") (b'=' ∷ text))

  equals-row : index_of (codes "=") (row key value) ≡ some (length name)
  equals-row =
      ap (index_of (codes "=")) row-name
      ∙ index_of-append b'=' [] name text
          (Lacks-plain b'=' key (codes " ") equals_odd k.plain space_odd)

  take-row : trim (take (length name) (row key value)) ≡ key
  take-row =
      ap (λ t. trim (take (length name) t)) row-name
      ∙ ap trim (take-append name (b'=' ∷ text))
      ∙ trim-key key k

  drop-row : trim (drop (length name + 1) (row key value)) ≡ quote_toml_string value
  drop-row =
      ap (λ t. trim (drop (length name + 1) t)) row-name
      ∙ ap trim (drop-quote name b'=' text)
      ∙ trim-quoted value

  pub read-row :
      (to_string : ℕ → Bytes) (number : ℕ) (values : Values)
      → read_line to_string number (row key value) (record { section = []; values = values })
        ≡ ok (record { section = []; values = set_entry key (quote_toml_string value) values })
  unfolding read_line
  read-row to_string number values =
      rw (null-key key _ k, no_bracket key _ k, equals-row, take-row, drop-row, k.there) refl
