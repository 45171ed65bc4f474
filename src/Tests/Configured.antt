-- ===== src/Tests/Configured.antt =====
-- A configuration file at concrete inputs.
use ghostclaw.Base.{ℕ, ◌≡◌, refl, List, [], ◌∷◌, ◌++◌}
use ghostclaw.Base.Lines.{unlines}
use ghostclaw.Base.Text.{Bytes, codes, equal}
use ghostclaw.Common.{ok}
use ghostclaw.Common.Fs.{trim, is_space}
use ghostclaw.Common.Toml.{
  Document, parse_toml, get_string, get_string_array, quote_loop, quote_byte, unquote,
}
use ghostclaw.Common.Toml.Rows.{IsKey}
use ghostclaw.Common.Toml.RoundTrip.{rows, AreEntries, get_string-parse_toml}

abbrev no_digits : ℕ → Bytes
no_digits _ = []

abbrev before : List (Bytes × Bytes)
before = (codes "name", codes "old") ∷ []

-- A text with a quote and a number sign.
abbrev said : Bytes
said = codes "a\"#b"

name_IsKey : IsKey (codes "name")
unfolding is_space
name_IsKey = record { there = refl; plain = refl }

two_entries : AreEntries (before ++ (codes "name", said) ∷ [])
two_entries = (
  name_IsKey,
  ((λ e. cc), ((λ e. cc), ((λ e. cc), tt))),
  (name_IsKey, ((λ e. cc), ((λ e. cc), ((λ e. cc), ((λ e. cc), tt)))), tt),
)

get_string-parse_toml_example :
    (d : Document) × (parse_toml no_digits (unlines (rows (before ++ (codes "name", said) ∷ [])))
      ≡ ok d)
    × (get_string d.values (codes "name") [] ≡ quote_loop said)
get_string-parse_toml_example =
    get_string-parse_toml no_digits before (codes "name") said [] two_entries

-- The quote is read back with its backslash.
still_escaped : quote_loop said ≡ codes "a\\\"#b"
unfolding quote_loop quote_byte
still_escaped = refl

array :
    get_string_array ((codes "xs", codes "[\"a,b\", \"c\"]") ∷ []) (codes "xs") []
    ≡ codes "a,b" ∷ codes "c" ∷ []
unfolding get_string_array unquote trim is_space equal
array = refl
