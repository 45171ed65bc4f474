-- ===== src/Memory/Chunker/Solid.antt =====
-- What the loops over paragraphs, sentences and words keep (src/memory/chunker.cpp).
use ghostclaw.Base.{
  ℕ, ◌≡◌, refl, ap, ap₂, sym, ◌∙◌, true, not, List, [], ◌∷◌, ◌++◌, arith, null, length, keep,
  keep-append, all, append_assoc, append-nil, inl, inr, Bool-cases, leb, ltb, ◌==◌, ==→eq,
}
use ghostclaw.Base.Text.{Bytes, lines}
use ghostclaw.Common.Fs.{trim, is_space}
use ghostclaw.Common.Fs.Trim.{trim-IsTrimOf}
use ghostclaw.Memory.Chunker.{
  trimmed, join, paragraph_loop, split_paragraphs, ends_sentence, sentence_loop, split_sentences,
  left_over, read_words, overflows, word_loop, split_words, before_words, content_loop,
  paragraph_contents,
}

-- The bytes that are no spaces.
abbrev pub solid : Bytes → Bytes
solid s = keep (λ c. not (is_space c)) s

abbrev pub concat : List Bytes → Bytes
concat [] = []
concat (x ∷ xs) = x ++ concat xs

pub solid-append : (a b : Bytes) → solid (a ++ b) ≡ solid a ++ solid b
solid-append a b = keep-append (λ c. not (is_space c)) a b

pub concat-append : (xs ys : List Bytes) → concat (xs ++ ys) ≡ concat xs ++ concat ys
concat-append [] ys = refl
concat-append (x ∷ xs) ys =
    ap (λ t. x ++ t) (concat-append xs ys) ∙ sym (append_assoc x (concat xs) (concat ys))

solid_blank : (s : Bytes) → all is_space s ≡ true → solid s ≡ []
solid_blank [] h = refl
solid_blank (c ∷ s) h = ground (arith, solid_blank s)

solid-trim : (s : Bytes) → solid (trim s) ≡ solid s
solid-trim s =
    let t = trim-IsTrimOf s in
    let parts : solid s ≡ solid t.before ++ (solid (trim s) ++ solid t.after) =
      ap solid t.splits
      ∙ solid-append t.before (trim s ++ t.after)
      ∙ ap (λ k. solid t.before ++ k) (solid-append (trim s) t.after) in
    sym (
      parts
      ∙ ap₂ (λ a b. a ++ (solid (trim s) ++ b)) (solid_blank t.before t.before_blank)
          (solid_blank t.after t.after_blank)
      ∙ append-nil (solid (trim s)))

null_nil : (s : Bytes) → null s ≡ true → s ≡ []
null_nil [] h = refl
null_nil (c ∷ s) h = absurd cc

solid-trimmed : (s : Bytes) → solid (concat (trimmed s)) ≡ solid s
solid-trimmed s = elim (Bool-cases (null (trim s))) [
  | inl gone ↦ rw gone (sym (ap solid (null_nil (trim s) gone)) ∙ solid-trim s)
  | inr left ↦ rw left (ap solid (append-nil (trim s)) ∙ solid-trim s)
]

solid-join :
    (separator : ℕ) (a b : Bytes)
    → is_space separator ≡ true
    → solid (join separator a b) ≡ solid a ++ solid b
solid-join separator [] b h = refl
solid-join separator (c ∷ a) b h =
    solid-append (c ∷ a) (separator ∷ b) ∙ ap (λ t. solid (c ∷ a) ++ t) (rw h refl)

solid-left_over : (s : Bytes) → solid (concat (left_over s)) ≡ solid s
solid-left_over [] = refl
solid-left_over (c ∷ s) = ap solid (append-nil (c ∷ s))

-- What is kept of two lists of texts, one behind the other.
pub solid-concat :
    (xs ys : List Bytes) → solid (concat (xs ++ ys)) ≡ solid (concat xs) ++ solid (concat ys)
solid-concat xs ys = ap solid (concat-append xs ys) ∙ solid-append (concat xs) (concat ys)

-- A byte that moves from the text to what is held back.
step :
    (held : Bytes) (c : ℕ) (text : Bytes)
    → solid (held ++ c ∷ []) ++ solid text ≡ solid held ++ solid (c ∷ text)
step held c text =
    ap (λ t. t ++ solid text) (solid-append held (c ∷ []))
    ∙ append_assoc (solid held) (solid (c ∷ [])) (solid text)
    ∙ ap (λ t. solid held ++ t) (sym (solid-append (c ∷ []) text))

newline_blank : is_space b'\n' ≡ true
unfolding is_space
newline_blank = refl

blank_blank : is_space b' ' ≡ true
unfolding is_space
blank_blank = refl

pub paragraph_loop-solid :
    (rows : List Bytes) (current : Bytes)
    → solid (concat (paragraph_loop rows current)) ≡ solid current ++ solid (concat rows)
unfolding paragraph_loop
paragraph_loop-solid [] current = solid-trimmed current ∙ sym (append-nil (solid current))
paragraph_loop-solid ([] ∷ rest) current = elim (Bool-cases (null (trim current))) [
  | inl gone ↦ rw (paragraph_loop, gone) (paragraph_loop-solid rest current)
  | inr left ↦
      rw (paragraph_loop, left)
        (solid-append (trim current) (concat (paragraph_loop rest []))
          ∙ ap₂ (λ a b. a ++ b) (solid-trim current) (paragraph_loop-solid rest []))
]
paragraph_loop-solid ((c ∷ row) ∷ rest) current =
    paragraph_loop-solid rest (join b'\n' current (c ∷ row))
    ∙ ap (λ t. t ++ solid (concat rest)) (solid-join b'\n' current (c ∷ row) newline_blank)
    ∙ append_assoc (solid current) (solid (c ∷ row)) (solid (concat rest))
    ∙ ap (λ t. solid current ++ t) (sym (solid-append (c ∷ row) (concat rest)))

pub lines-solid : (row text : Bytes) → solid (concat (lines row text)) ≡ solid row ++ solid text
unfolding lines
lines-solid row [] = solid-left_over row ∙ sym (append-nil (solid row))
lines-solid row (c ∷ text) = elim (Bool-cases (c == b'\n')) [
  | inl end ↦
      rw (lines, end)
        (solid-append row (concat (lines [] text))
          ∙ ap (λ t. solid row ++ t)
              (lines-solid [] text
                ∙ sym (rw (ap is_space (==→eq c b'\n' end) ∙ newline_blank) refl)))
  | inr more ↦ rw (lines, more) (lines-solid (row ++ c ∷ []) text ∙ step row c text)
]

pub sentence_loop-solid :
    (text current : Bytes)
    → solid (concat (sentence_loop text current)) ≡ solid current ++ solid text
unfolding sentence_loop
sentence_loop-solid [] current = solid-trimmed current ∙ sym (append-nil (solid current))
sentence_loop-solid (c ∷ text) current = elim (Bool-cases (ends_sentence c)) [
  | inl end ↦
      rw (sentence_loop, end)
        (solid-concat (trimmed (current ++ c ∷ [])) (sentence_loop text [])
          ∙ ap₂ (λ a b. a ++ b) (solid-trimmed (current ++ c ∷ [])) (sentence_loop-solid text [])
          ∙ step current c text)
  | inr more ↦
      rw (sentence_loop, more) (sentence_loop-solid text (current ++ c ∷ []) ∙ step current c text)
]

read_words-solid :
    (text word : Bytes) → solid (concat (read_words text word)) ≡ solid word ++ solid text
unfolding read_words
read_words-solid [] word = solid-left_over word ∙ sym (append-nil (solid word))
read_words-solid (c ∷ text) word = elim (Bool-cases (is_space c)) [
  | inl space ↦
      rw (read_words, space)
        (solid-concat (left_over word) (read_words text [])
          ∙ ap₂ (λ a b. a ++ b) (solid-left_over word) (read_words-solid text []))
  | inr more ↦
      rw (read_words, more)
        (read_words-solid text (word ++ c ∷ [])
          ∙ step word c text
          ∙ ap (λ t. solid word ++ t) (rw more refl))
]

-- A text that is joined to what is held back.
step_join :
    (held next : Bytes) (rest : List Bytes)
    → solid (join b' ' held next) ++ solid (concat rest)
      ≡ solid held ++ solid (concat (next ∷ rest))
step_join held next rest =
    ap (λ t. t ++ solid (concat rest)) (solid-join b' ' held next blank_blank)
    ∙ append_assoc (solid held) (solid next) (solid (concat rest))
    ∙ ap (λ t. solid held ++ t) (sym (solid-append next (concat rest)))

word_loop-solid :
    (max_size : ℕ) (words : List Bytes) (current : Bytes)
    → solid (concat (word_loop max_size words current)) ≡ solid current ++ solid (concat words)
unfolding word_loop
word_loop-solid max_size [] current = solid-left_over current ∙ sym (append-nil (solid current))
word_loop-solid max_size (word ∷ rest) current =
    elim (Bool-cases (overflows max_size current word)) [
      | inl full ↦
          rw (word_loop, full)
            (solid-append current (concat (word_loop max_size rest word))
              ∙ ap (λ t. solid current ++ t)
                  (word_loop-solid max_size rest word ∙ sym (solid-append word (concat rest))))
      | inr fits ↦
          rw (word_loop, fits)
            (word_loop-solid max_size rest (join b' ' current word) ∙ step_join current word rest)
    ]

split_words-solid :
    (text : Bytes) (max_size : ℕ) → solid (concat (split_words text max_size)) ≡ solid text
unfolding split_words
split_words-solid text max_size =
    word_loop-solid max_size (read_words text []) [] ∙ read_words-solid text []

before_words-solid :
    (words : List Bytes) (current : Bytes)
    → solid (concat (before_words words current).0) ++ solid (before_words words current).1
      ≡ solid current ++ solid (concat words)
before_words-solid [] current = sym (append-nil (solid current))
before_words-solid (word ∷ words) current =
    append-nil _
    ∙ solid-concat (left_over current) (word ∷ words)
    ∙ ap (λ t. t ++ solid (concat (word ∷ words))) (solid-left_over current)

pub content_loop-solid :
    (max_size : ℕ) (sentences : List Bytes) (current : Bytes)
    → solid (concat (content_loop max_size sentences current))
      ≡ solid current ++ solid (concat sentences)
unfolding content_loop
content_loop-solid max_size [] current = solid-left_over current ∙ sym (append-nil (solid current))
content_loop-solid max_size (sentence ∷ rest) current =
    elim (Bool-cases (ltb max_size (length sentence))) [
      | inl long ↦
          let words = split_words sentence max_size in
          let out = before_words words current in
          rw (content_loop, long)
            (solid-concat out.0 (content_loop max_size rest out.1)
              ∙ ap (λ t. solid (concat out.0) ++ t) (content_loop-solid max_size rest out.1)
              ∙ sym (append_assoc (solid (concat out.0)) (solid out.1) (solid (concat rest)))
              ∙ ap (λ t. t ++ solid (concat rest))
                  (before_words-solid words current
                    ∙ ap (λ t. solid current ++ t) (split_words-solid sentence max_size))
              ∙ append_assoc (solid current) (solid sentence) (solid (concat rest))
              ∙ ap (λ t. solid current ++ t) (sym (solid-append sentence (concat rest))))
      | inr short ↦ elim (Bool-cases (overflows max_size current sentence)) [
        | inl full ↦
            rw (content_loop, short, full)
              (solid-append current (concat (content_loop max_size rest sentence))
                ∙ ap (λ t. solid current ++ t)
                    (content_loop-solid max_size rest sentence
                      ∙ sym (solid-append sentence (concat rest))))
        | inr fits ↦
            rw (content_loop, short, fits)
              (content_loop-solid max_size rest (join b' ' current sentence)
                ∙ step_join current sentence rest)
      ]
    ]

pub split_paragraphs-solid : (text : Bytes) → solid (concat (split_paragraphs text)) ≡ solid text
unfolding split_paragraphs
split_paragraphs-solid text = paragraph_loop-solid (lines [] text) [] ∙ lines-solid [] text

pub paragraph_contents-solid :
    (max_size : ℕ) (paragraph : Bytes)
    → solid (concat (paragraph_contents max_size paragraph)) ≡ solid paragraph
unfolding paragraph_contents split_sentences
paragraph_contents-solid max_size paragraph = elim (Bool-cases (leb (length paragraph) max_size)) [
  | inl small ↦ rw small (ap solid (append-nil paragraph))
  | inr long ↦ rw long (
      content_loop-solid max_size (sentence_loop paragraph []) []
      ∙ sentence_loop-solid paragraph [])
]
