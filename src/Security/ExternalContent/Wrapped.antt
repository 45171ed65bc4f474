-- ===== src/Security/ExternalContent/Wrapped.antt =====
-- The end marker of wrapped content (src/security/external_content.cpp).
use ghostclaw.Base.{
  ◌≡◌, refl, ap, sym, ◌∙◌, Bool, List, [], ◌∷◌, ◌++◌, Option, none, some, arith, if◌then◌else◌,
  null, append_assoc, inl, inr, Bool-cases,
}
use ghostclaw.Base.Text.{Bytes, codes, index_of, is_prefix, Lacks}
use ghostclaw.Common.Fs.{lower_byte, trim, to_lower}
use ghostclaw.Security.ExternalContent.{
  external_start, external_end, external_warning, ExternalSource, email, webhook, api, browser,
  channel_metadata, web_search, web_fetch, unknown, external_source_label, value_line, join_lines,
  sanitize_external_markers, wrap_external_content,
}
use ghostclaw.Security.ExternalContent.Replace.{
  Clean, Clean-none, none-Clean, Clean-lacking, Clean-between, map-append,
}
use ghostclaw.Security.ExternalContent.Sanitized.{end_tail, sanitized-Clean}

-- The end marker stands nowhere in the text, in any case of its letters.
abbrev pub NoEnd : Bytes → Type 0
NoEnd s = Clean (b'<' ∷ end_tail) (to_lower s)

abbrev AllNoEnd : List Bytes → Type 0
AllNoEnd [] = Unit
AllNoEnd (line ∷ rest) = NoEnd line × AllNoEnd rest

AllNoEnd-append : (xs ys : List Bytes) → AllNoEnd xs → AllNoEnd ys → AllNoEnd (xs ++ ys)
AllNoEnd-append [] ys h k = k
AllNoEnd-append (x ∷ xs) ys (h, hs) k = (h, AllNoEnd-append xs ys hs k)

with_newlines : List Bytes → Bytes
with_newlines [] = []
with_newlines (line ∷ rest) = line ++ (b'\n' ∷ with_newlines rest)

with_newlines-NoEnd : (ls : List Bytes) → AllNoEnd ls → NoEnd (with_newlines ls)
unfolding with_newlines to_lower lower_byte is_prefix
with_newlines-NoEnd [] h = tt
with_newlines-NoEnd (line ∷ rest) (h, hs) =
    let shape : to_lower (line ++ (b'\n' ∷ with_newlines rest))
        ≡ to_lower line ++ (b'\n' ∷ to_lower (with_newlines rest)) =
      map-append lower_byte line (b'\n' ∷ with_newlines rest) in
    rw shape (
      Clean-between (b'<' ∷ end_tail) (to_lower line) (to_lower (with_newlines rest)) b'\n'
        (omega arith) h (refl, with_newlines-NoEnd rest hs))

join_lines-last :
    (ls : List Bytes) (last : Bytes) → join_lines (ls ++ last ∷ []) ≡ with_newlines ls ++ last
unfolding join_lines with_newlines
join_lines-last [] last = refl
join_lines-last (a ∷ []) last = sym (append_assoc a (b'\n' ∷ []) last)
join_lines-last (a ∷ b ∷ ls) last =
    ap (λ k. a ++ (b'\n' ∷ k)) (join_lines-last (b ∷ ls) last)
    ∙ sym (append_assoc a (b'\n' ∷ with_newlines (b ∷ ls)) last)

-- A text that is known is searched.
NoEnd-none : (s : Bytes) → index_of (b'<' ∷ end_tail) (to_lower s) ≡ none → NoEnd s
NoEnd-none s h = Clean-none b'<' end_tail (to_lower s) h

label-NoEnd : (source : ExternalSource) → NoEnd (codes "Source: " ++ external_source_label source)
unfolding external_source_label to_lower lower_byte index_of is_prefix
label-NoEnd email = NoEnd-none (codes "Source: " ++ external_source_label email) refl
label-NoEnd webhook = NoEnd-none (codes "Source: " ++ external_source_label webhook) refl
label-NoEnd api = NoEnd-none (codes "Source: " ++ external_source_label api) refl
label-NoEnd browser = NoEnd-none (codes "Source: " ++ external_source_label browser) refl
label-NoEnd channel_metadata =
    NoEnd-none (codes "Source: " ++ external_source_label channel_metadata) refl
label-NoEnd web_search = NoEnd-none (codes "Source: " ++ external_source_label web_search) refl
label-NoEnd web_fetch = NoEnd-none (codes "Source: " ++ external_source_label web_fetch) refl
label-NoEnd unknown = NoEnd-none (codes "Source: " ++ external_source_label unknown) refl

start-NoEnd : NoEnd external_start
unfolding to_lower lower_byte index_of is_prefix
start-NoEnd = NoEnd-none external_start refl

rule-NoEnd : NoEnd (codes "---")
unfolding to_lower lower_byte index_of is_prefix
rule-NoEnd = NoEnd-none (codes "---") refl

warning-NoEnd : NoEnd external_warning
unfolding to_lower lower_byte index_of is_prefix
warning-NoEnd = NoEnd-none external_warning refl

-- The value does not hold the end marker, if there is one.
abbrev pub ValueNoEnd : Option Bytes → Type 0
ValueNoEnd none = Unit
ValueNoEnd (some value) = index_of (to_lower external_end) (to_lower value) ≡ none

module _ (label : Bytes) (free : Lacks b'<' (to_lower label)) where
  value_line-NoEnd : (value : Option Bytes) → ValueNoEnd value → AllNoEnd (value_line label value)
  unfolding value_line to_lower lower_byte
  value_line-NoEnd none h = tt
  value_line-NoEnd (some value) h = elim (Bool-cases (null (trim value))) [
    | inl blank ↦ rw blank tt
    | inr there ↦ rw there (
      rw (map-append lower_byte label value) (
          Clean-lacking b'<' end_tail (to_lower label) (to_lower value) free
            (Clean-none b'<' end_tail (to_lower value) h)),
      tt,
    )
  ]

from_free : Lacks b'<' (to_lower (codes "From: "))
unfolding to_lower lower_byte
from_free = omega arith

subject_free : Lacks b'<' (to_lower (codes "Subject: "))
unfolding to_lower lower_byte
subject_free = omega arith

append_last :
    {A : Type 0} (heads from about : List A) (a b c d e : A)
    → (heads ++ (a ∷ b ∷ (from ++ (about ++ c ∷ d ∷ [])))) ++ e ∷ []
      ≡ heads ++ (a ∷ b ∷ (from ++ (about ++ c ∷ d ∷ e ∷ [])))
append_last heads from about a b c d e = simp append_assoc

module _ (content : Bytes) (source : ExternalSource) (sender subject : Option Bytes)
    (include_warning : Bool) where
  abbrev first_lines : List Bytes
  first_lines =
      (if include_warning then external_warning ∷ [] ∷ [] else [])
      ++ (external_start
          ∷ (codes "Source: " ++ external_source_label source)
          ∷ (value_line (codes "From: ") sender
              ++ (value_line (codes "Subject: ") subject
                  ++ codes "---" ∷ sanitize_external_markers content ∷ [])))

  first_lines-NoEnd : ValueNoEnd sender → ValueNoEnd subject → AllNoEnd first_lines
  first_lines-NoEnd s t =
      AllNoEnd-append (if include_warning then external_warning ∷ [] ∷ [] else []) _
        (elim (Bool-cases include_warning) [
          | inl warn ↦ rw warn (warning-NoEnd, ((unfold to_lower in tt), tt))
          | inr quiet ↦ rw quiet tt
        ])
        (
          start-NoEnd,
          (
            label-NoEnd source,
            AllNoEnd-append (value_line (codes "From: ") sender) _
                (value_line-NoEnd (codes "From: ") from_free sender s)
                (AllNoEnd-append (value_line (codes "Subject: ") subject) _
                  (value_line-NoEnd (codes "Subject: ") subject_free subject t)
                  (rule-NoEnd, ((sanitized-Clean content).1, tt))),
          ),
        )

  all_lines :
      wrap_external_content content source sender subject include_warning
      ≡ join_lines (first_lines ++ external_end ∷ [])
  unfolding wrap_external_content
  all_lines = ap join_lines (
      sym (
        append_last (if include_warning then external_warning ∷ [] ∷ [] else [])
          (value_line (codes "From: ") sender) (value_line (codes "Subject: ") subject)
          external_start (codes "Source: " ++ external_source_label source) (codes "---")
          (sanitize_external_markers content) external_end))

  -- Wrapped content ends with the end marker, and holds it nowhere before, in any case of its
  -- letters, whatever the content is, if neither the sender nor the subject holds it.
  pub wrap-ends_once :
      ValueNoEnd sender
      → ValueNoEnd subject
      → (front : Bytes) × (wrap_external_content content source sender subject include_warning
          ≡ front ++ external_end)
        × (index_of (to_lower external_end) (to_lower front) ≡ none)
  wrap-ends_once s t = (
    with_newlines first_lines,
    all_lines ∙ join_lines-last first_lines external_end,
    (unfold to_lower lower_byte in
        none-Clean b'<' end_tail _ (with_newlines-NoEnd first_lines (first_lines-NoEnd s t))),
  )
