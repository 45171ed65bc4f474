-- ===== src/Memory/Chunker/Sized.antt =====
-- How large a chunk can be (src/memory/chunker.cpp).
use mathlib.Core.Bool.{false≢true}
use ghostclaw.Base.{
  ℕ, ◌+◌, ◌≤◌, ◌≡◌, refl, ap, sym, subst, ◌∙◌, ◌⊎◌, inl, inr, true, false, not, List, [], ◌∷◌, ◌++◌,
  Option, none, some, arith, if◌then◌else◌, null, length, length-append, all, all-append, ltb, leb,
  leb→le, map, map-append, Bool-cases,
}
use ghostclaw.Base.Text.{Bytes, codes}
use ghostclaw.Common.Fs.{is_space, starts_with}
use ghostclaw.Memory.Chunker.{
  join, left_over, read_words, overflows, word_loop, split_words, before_words, content_loop,
  split_sentences, split_paragraphs, paragraph_contents, TextChunk, Progress, emit_chunk, emit_all,
  chunk_loop, or_whole, chunk_text,
}
use ghostclaw.Memory.Chunker.Solid.{solid, split_paragraphs-solid}
use ghostclaw.Memory.Chunker.Lossless.{body, bodies, headed-drop, chunk_loop-bodies}

-- No space stands in the text.
abbrev pub IsWord : Bytes → Type 0
IsWord s = all (λ c. not (is_space c)) s ≡ true

-- Not longer than the limit, or a single word.
abbrev pub Fits : ℕ → Bytes → Type 0
Fits limit s = (length s ≤ limit) ⊎ IsWord s

abbrev pub AllFit : ℕ → List Bytes → Type 0
AllFit limit [] = Unit
AllFit limit (x ∷ xs) = Fits limit x × AllFit limit xs

abbrev AreWords : List Bytes → Type 0
AreWords [] = Unit
AreWords (x ∷ xs) = IsWord x × AreWords xs

AllFit-append :
    (limit : ℕ) (xs ys : List Bytes) → AllFit limit xs → AllFit limit ys → AllFit limit (xs ++ ys)
AllFit-append limit [] ys h k = k
AllFit-append limit (x ∷ xs) ys h k = (h.0, AllFit-append limit xs ys h.1 k)

AreWords-append : (xs ys : List Bytes) → AreWords xs → AreWords ys → AreWords (xs ++ ys)
AreWords-append [] ys h k = k
AreWords-append (x ∷ xs) ys h k = (h.0, AreWords-append xs ys h.1 k)

left_over-AreWords : (s : Bytes) → IsWord s → AreWords (left_over s)
left_over-AreWords [] h = tt
left_over-AreWords (c ∷ s) h = (h, tt)

left_over-AllFit : (limit : ℕ) (s : Bytes) → Fits limit s → AllFit limit (left_over s)
left_over-AllFit limit [] h = tt
left_over-AllFit limit (c ∷ s) h = (h, tt)

read_words-AreWords : (text word : Bytes) → IsWord word → AreWords (read_words text word)
unfolding read_words
read_words-AreWords [] word h = left_over-AreWords word h
read_words-AreWords (c ∷ text) word h = elim (Bool-cases (is_space c)) [
  | inl space ↦
      rw (AreWords, read_words, space)
        (AreWords-append (left_over word) (read_words text []) (left_over-AreWords word h)
          (read_words-AreWords text [] refl))
  | inr more ↦
      let longer : IsWord (word ++ c ∷ []) =
        all-append (λ k. not (is_space k)) word (c ∷ []) ∙ ground (arith, h, more) in
      rw (AreWords, read_words, more) (read_words-AreWords text (word ++ c ∷ []) longer)
]

-- What does not overflow fits, with the space between.
join-Fits :
    (limit : ℕ) (current next : Bytes)
    → overflows limit current next ≡ false
    → Fits limit next
    → Fits limit (join b' ' current next)
join-Fits limit [] next h fits = fits
join-Fits limit (c ∷ current) next h fits =
    inl (omega (arith, length-append (c ∷ current) (b' ' ∷ next), not_over))
  where
    not_over : length (c ∷ current) + length next + 1 ≤ limit
    not_over = ground (arith, h)

word_loop-AllFit :
    (limit : ℕ) (words : List Bytes) (current : Bytes)
    → AreWords words
    → Fits limit current
    → AllFit limit (word_loop limit words current)
unfolding word_loop
word_loop-AllFit limit [] current h fits = left_over-AllFit limit current fits
word_loop-AllFit limit (word ∷ rest) current h fits =
    elim (Bool-cases (overflows limit current word)) [
      | inl full ↦
          rw (AllFit, word_loop, full) (fits, word_loop-AllFit limit rest word h.1 (inr h.0))
      | inr room ↦
          rw (AllFit, word_loop, room)
            (word_loop-AllFit limit rest (join b' ' current word) h.1
              (join-Fits limit current word room (inr h.0)))
    ]

split_words-AllFit : (limit : ℕ) (text : Bytes) → AllFit limit (split_words text limit)
unfolding split_words
split_words-AllFit limit text =
    word_loop-AllFit limit (read_words text []) [] (read_words-AreWords text [] refl) (inr refl)

before_words-AllFit :
    (limit : ℕ) (words : List Bytes) (current : Bytes)
    → AllFit limit words
    → Fits limit current
    → AllFit limit (before_words words current).0 × Fits limit (before_words words current).1
before_words-AllFit limit [] current h fits = (tt, fits)
before_words-AllFit limit (word ∷ words) current h fits = (
  AllFit-append limit (left_over current) (word ∷ words) (left_over-AllFit limit current fits) h,
  inr refl,
)

content_loop-AllFit :
    (limit : ℕ) (sentences : List Bytes) (current : Bytes)
    → Fits limit current
    → AllFit limit (content_loop limit sentences current)
unfolding content_loop
content_loop-AllFit limit [] current fits = left_over-AllFit limit current fits
content_loop-AllFit limit (sentence ∷ rest) current fits =
    elim (Bool-cases (ltb limit (length sentence))) [
      | inl long ↦
          let words = split_words sentence limit in
          let out =
            before_words-AllFit limit words current (split_words-AllFit limit sentence) fits in
          rw (AllFit, content_loop, long)
            (AllFit-append limit _ _ out.0 (content_loop-AllFit limit rest _ out.1))
      | inr short ↦
          let small : Fits limit sentence = inl (ground (arith, short)) in
          elim (Bool-cases (overflows limit current sentence)) [
            | inl full ↦
                rw (AllFit, content_loop, short, full)
                  (fits, content_loop-AllFit limit rest sentence small)
            | inr room ↦
                rw (AllFit, content_loop, short, room)
                  (content_loop-AllFit limit rest (join b' ' current sentence)
                    (join-Fits limit current sentence room small))
          ]
    ]

paragraph_contents-AllFit :
    (limit : ℕ) (paragraph : Bytes) → AllFit limit (paragraph_contents limit paragraph)
unfolding paragraph_contents
paragraph_contents-AllFit limit paragraph = elim (Bool-cases (leb (length paragraph) limit)) [
  | inl small ↦ rw (AllFit, small) (inl (leb→le (length paragraph) limit small), tt)
  | inr long ↦
      rw (AllFit, long) (content_loop-AllFit limit (split_sentences paragraph) [] (inr refl))
]

abbrev pub ChunksFit : ℕ → List TextChunk → Type 0
ChunksFit limit chunks = AllFit limit (map body chunks)

emit_all-ChunksFit :
    (limit overlap : ℕ) (heading : Option Bytes) (contents : List Bytes) (p : Progress)
    → AllFit limit contents
    → ChunksFit limit p.chunks
    → ChunksFit limit (emit_all overlap heading contents p).chunks
unfolding emit_all emit_chunk
emit_all-ChunksFit limit overlap heading [] p h k = k
emit_all-ChunksFit limit overlap heading (content ∷ rest) p h k =
    emit_all-ChunksFit limit overlap heading rest (emit_chunk overlap heading content p) h.1 (
      subst (AllFit limit) (sym (map-append body p.chunks _)) (
        AllFit-append limit (map body p.chunks) _ k
          (subst (Fits limit) (sym (headed-drop heading content p.offset)) h.0, tt)))

chunk_loop-ChunksFit :
    (limit overlap : ℕ) (paragraphs : List Bytes) (heading : Option Bytes) (p : Progress)
    → ChunksFit limit p.chunks
    → ChunksFit limit (chunk_loop limit overlap paragraphs heading p).chunks
unfolding chunk_loop
chunk_loop-ChunksFit limit overlap [] heading p k = k
chunk_loop-ChunksFit limit overlap (paragraph ∷ rest) heading p k =
    let current = if starts_with paragraph (codes "#") then some paragraph else heading in
    chunk_loop-ChunksFit limit overlap rest current
      (emit_all overlap current (paragraph_contents limit paragraph) p)
      (emit_all-ChunksFit limit overlap current (paragraph_contents limit paragraph) p
        (paragraph_contents-AllFit limit paragraph) k)

or_whole-ChunksFit :
    (limit : ℕ) (text : Bytes) (chunks : List TextChunk)
    → null (solid text) ≡ false
    → solid (bodies chunks) ≡ solid text
    → ChunksFit limit chunks
    → ChunksFit limit (or_whole text chunks)
or_whole-ChunksFit limit text [] there kept h = absurd (false≢true (sym there ∙ ap null (sym kept)))
or_whole-ChunksFit limit text (chunk ∷ chunks) there kept h = h

-- Of a text that holds more than spaces, each chunk is, behind its heading, no longer than the
-- limit, or a single word.
pub chunk_text-ChunksFit :
    (text : Bytes) (max_chunk_size overlap : ℕ)
    → null (solid text) ≡ false
    → ChunksFit max_chunk_size (chunk_text text max_chunk_size overlap)
unfolding chunk_text
chunk_text-ChunksFit text max_chunk_size overlap there =
    let start : Progress = record { chunks = []; offset = 0 } in
    let paragraphs = split_paragraphs text in
    or_whole-ChunksFit max_chunk_size text
      (chunk_loop max_chunk_size overlap paragraphs none start).chunks there
      (chunk_loop-bodies max_chunk_size overlap paragraphs none start ∙ split_paragraphs-solid text)
      (chunk_loop-ChunksFit max_chunk_size overlap paragraphs none start tt)
