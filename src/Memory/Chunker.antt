-- ===== src/Memory/Chunker.antt =====
-- src/memory/chunker.cpp: a text is cut into chunks at its paragraphs, sentences and words.
pub mod Solid
pub mod Lossless
pub mod Sized
use ghostclaw.Base.{
  ℕ, ◌+◌, ◌-◌, Bool, true, false, ◌&&◌, ◌||◌, not, List, [], ◌∷◌, ◌++◌, Option, none, some, ltb,
  leb, ◌==◌, if◌then◌else◌, null, length,
}
use ghostclaw.Base.Text.{Bytes, codes, lines}
use ghostclaw.Common.Fs.{trim, is_space, starts_with}

-- The text without its outer spaces, unless nothing is left of it.
abbrev pub trimmed : Bytes → List Bytes
trimmed current = if null (trim current) then [] else trim current ∷ []

-- `current`, a separator if there is something to separate, and what follows
abbrev pub join : ℕ → Bytes → Bytes → Bytes
join separator current next = if null current then next else current ++ (separator ∷ next)

unfoldable pub paragraph_loop : List Bytes → Bytes → List Bytes
paragraph_loop [] current = trimmed current
paragraph_loop (line ∷ rest) current = elim (null line) [
  | true ↦ elim (null (trim current)) [
    | true ↦ paragraph_loop rest current
    | false ↦ trim current ∷ paragraph_loop rest []
  ]
  | false ↦ paragraph_loop rest (join b'\n' current line)
]

unfoldable pub split_paragraphs : Bytes → List Bytes
unfolding paragraph_loop lines
split_paragraphs text = paragraph_loop (lines [] text) []

abbrev pub ends_sentence : ℕ → Bool
ends_sentence ch = ch == b'.' || (ch == b'!' || ch == b'?')

unfoldable pub sentence_loop : Bytes → Bytes → List Bytes
sentence_loop [] current = trimmed current
sentence_loop (ch ∷ text) current = elim (ends_sentence ch) [
  | true ↦ trimmed (current ++ ch ∷ []) ++ sentence_loop text []
  | false ↦ sentence_loop text (current ++ ch ∷ [])
]

unfoldable pub split_sentences : Bytes → List Bytes
unfolding sentence_loop
split_sentences text = sentence_loop text []

-- A text that is left, if it is one.
abbrev pub left_over : Bytes → List Bytes
left_over current = if null current then [] else current ∷ []

-- `stream >> word` until the end of the stream
unfoldable pub read_words : Bytes → Bytes → List Bytes
read_words [] word = left_over word
read_words (c ∷ text) word = elim (is_space c) [
  | true ↦ left_over word ++ read_words text []
  | false ↦ read_words text (word ++ c ∷ [])
]

-- The next text does not fit behind `current`.
abbrev pub overflows : ℕ → Bytes → Bytes → Bool
overflows max_size current next =
    ltb max_size (length current + length next + 1) && not (null current)

unfoldable pub word_loop : ℕ → List Bytes → Bytes → List Bytes
word_loop max_size [] current = left_over current
word_loop max_size (word ∷ rest) current = elim (overflows max_size current word) [
  | true ↦ current ∷ word_loop max_size rest word
  | false ↦ word_loop max_size rest (join b' ' current word)
]

unfoldable pub split_words : Bytes → ℕ → List Bytes
unfolding read_words word_loop
split_words text max_size = word_loop max_size (read_words text []) []

-- Before the first of the chunks of words, what is held back is emitted.
abbrev pub before_words : List Bytes → Bytes → List Bytes × Bytes
before_words [] current = ([], current)
before_words (word ∷ words) current = (left_over current ++ word ∷ words, [])

-- What the loop over the sentences of a paragraph emits.
unfoldable pub content_loop : ℕ → List Bytes → Bytes → List Bytes
unfolding split_words
content_loop max_size [] current = left_over current
content_loop max_size (sentence ∷ rest) current = elim (ltb max_size (length sentence)) [
  | true ↦
      let out = before_words (split_words sentence max_size) current in
      out.0 ++ content_loop max_size rest out.1
  | false ↦ elim (overflows max_size current sentence) [
    | true ↦ current ∷ content_loop max_size rest sentence
    | false ↦ content_loop max_size rest (join b' ' current sentence)
  ]
]

unfoldable pub paragraph_contents : ℕ → Bytes → List Bytes
unfolding content_loop split_sentences
paragraph_contents max_size paragraph =
    if leb (length paragraph) max_size
    then paragraph ∷ []
    else content_loop max_size (split_sentences paragraph) []

pub record TextChunk : Type 0 where
  pub content : Bytes
  pub heading : Option Bytes
  pub start_offset : ℕ
  pub end_offset : ℕ

-- What the loop over the paragraphs changes.
pub record Progress : Type 0 where
  pub chunks : List TextChunk
  pub offset : ℕ

abbrev pub headed : Option Bytes → Bytes → Bytes
headed none content = content
headed (some heading) content = heading ++ (b'\n' ∷ content)

unfoldable pub emit_chunk : ℕ → Option Bytes → Bytes → Progress → Progress
emit_chunk overlap heading content p = record {
  chunks =
      p.chunks
      ++ record {
        content = headed heading content;
        heading = heading;
        start_offset = p.offset;
        end_offset = p.offset + length content;
      }
        ∷ [];
  offset =
      p.offset
      + (if ltb overlap (length content) then length content - overlap else length content);
}

unfoldable pub emit_all : ℕ → Option Bytes → List Bytes → Progress → Progress
unfolding emit_chunk
emit_all overlap heading [] p = p
emit_all overlap heading (content ∷ rest) p =
    emit_all overlap heading rest (emit_chunk overlap heading content p)

unfoldable pub chunk_loop : ℕ → ℕ → List Bytes → Option Bytes → Progress → Progress
unfolding emit_all paragraph_contents
chunk_loop max_size overlap [] heading p = p
chunk_loop max_size overlap (paragraph ∷ rest) heading p =
    let current_heading = if starts_with paragraph (codes "#") then some paragraph else heading in
    chunk_loop max_size overlap rest current_heading
      (emit_all overlap current_heading (paragraph_contents max_size paragraph) p)

-- A text with no paragraph is a chunk by itself.
abbrev pub or_whole : Bytes → List TextChunk → List TextChunk
or_whole text [] =
    record { content = text; heading = none; start_offset = 0; end_offset = length text } ∷ []
or_whole text (chunk ∷ chunks) = chunk ∷ chunks

unfoldable pub chunk_text : Bytes → ℕ → ℕ → List TextChunk
unfolding chunk_loop split_paragraphs
chunk_text text max_chunk_size overlap =
    or_whole text
      (chunk_loop max_chunk_size overlap (split_paragraphs text) none
        (record { chunks = []; offset = 0 })).chunks
