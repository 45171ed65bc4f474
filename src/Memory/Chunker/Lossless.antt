-- ===== src/Memory/Chunker/Lossless.antt =====
-- Nothing but spaces is lost (src/memory/chunker.cpp).
use ghostclaw.Base.{
  ℕ, ◌+◌, ◌-◌, ◌≡◌, ap, sym, ◌∙◌, List, [], ◌∷◌, ◌++◌, Option, none, some, arith, if◌then◌else◌,
  length, drop, map, map-append, append_assoc, append-nil, length-append, drop-append,
}
use ghostclaw.Base.Text.{Bytes, codes}
use ghostclaw.Common.Fs.{starts_with}
use ghostclaw.Memory.Chunker.{
  split_paragraphs, paragraph_contents, TextChunk, Progress, headed, emit_chunk, emit_all,
  chunk_loop, or_whole, chunk_text,
}
use ghostclaw.Memory.Chunker.Solid.{
  solid, concat, solid-append, concat-append, split_paragraphs-solid, paragraph_contents-solid,
}

-- What a chunk holds behind its heading: its last bytes, as many as its offsets are apart.
abbrev pub body : TextChunk → Bytes
body chunk = drop (length chunk.content - (chunk.end_offset - chunk.start_offset)) chunk.content

abbrev pub bodies : List TextChunk → Bytes
bodies chunks = concat (map body chunks)

pub headed-drop :
    (heading : Option Bytes) (content : Bytes) (offset : ℕ)
    → drop
        (length (headed heading content) - (offset + length content - offset))
        (headed heading content)
      ≡ content
headed-drop none content offset =
    let n : length content - (offset + length content - offset) ≡ 0 = omega arith in
    ap (λ k. drop k content) n
headed-drop (some heading) content offset =
    let n : length (heading ++ (b'\n' ∷ content)) - (offset + length content - offset)
        ≡ length (heading ++ b'\n' ∷ []) =
      omega (arith, length-append heading (b'\n' ∷ content), length-append heading (b'\n' ∷ [])) in
    ap (λ k. drop k (heading ++ (b'\n' ∷ content))) n
    ∙ ap (drop (length (heading ++ b'\n' ∷ []))) (sym (append_assoc heading (b'\n' ∷ []) content))
    ∙ drop-append (heading ++ b'\n' ∷ []) content

bodies-append : (xs ys : List TextChunk) → bodies (xs ++ ys) ≡ bodies xs ++ bodies ys
bodies-append xs ys = ap concat (map-append body xs ys) ∙ concat-append (map body xs) (map body ys)

emit_chunk-bodies :
    (overlap : ℕ) (heading : Option Bytes) (content : Bytes) (p : Progress)
    → bodies (emit_chunk overlap heading content p).chunks ≡ bodies p.chunks ++ content
unfolding emit_chunk
emit_chunk-bodies overlap heading content p =
    bodies-append p.chunks _
    ∙ ap (λ t. bodies p.chunks ++ t) (append-nil _ ∙ headed-drop heading content p.offset)

emit_all-bodies :
    (overlap : ℕ) (heading : Option Bytes) (contents : List Bytes) (p : Progress)
    → bodies (emit_all overlap heading contents p).chunks ≡ bodies p.chunks ++ concat contents
unfolding emit_all
emit_all-bodies overlap heading [] p = sym (append-nil (bodies p.chunks))
emit_all-bodies overlap heading (content ∷ rest) p =
    emit_all-bodies overlap heading rest (emit_chunk overlap heading content p)
    ∙ ap (λ t. t ++ concat rest) (emit_chunk-bodies overlap heading content p)
    ∙ append_assoc (bodies p.chunks) content (concat rest)

pub chunk_loop-bodies :
    (max_size overlap : ℕ) (paragraphs : List Bytes) (heading : Option Bytes) (p : Progress)
    → solid (bodies (chunk_loop max_size overlap paragraphs heading p).chunks)
      ≡ solid (bodies p.chunks) ++ solid (concat paragraphs)
unfolding chunk_loop
chunk_loop-bodies max_size overlap [] heading p = sym (append-nil (solid (bodies p.chunks)))
chunk_loop-bodies max_size overlap (paragraph ∷ rest) heading p =
    let current = if starts_with paragraph (codes "#") then some paragraph else heading in
    let contents = paragraph_contents max_size paragraph in
    let next = emit_all overlap current contents p in
    chunk_loop-bodies max_size overlap rest current next
    ∙ ap (λ t. solid t ++ solid (concat rest)) (emit_all-bodies overlap current contents p)
    ∙ ap (λ t. t ++ solid (concat rest)) (solid-append (bodies p.chunks) (concat contents))
    ∙ append_assoc (solid (bodies p.chunks)) (solid (concat contents)) (solid (concat rest))
    ∙ ap (λ t. solid (bodies p.chunks) ++ (t ++ solid (concat rest)))
        (paragraph_contents-solid max_size paragraph)
    ∙ ap (λ t. solid (bodies p.chunks) ++ t) (sym (solid-append paragraph (concat rest)))

or_whole-bodies :
    (text : Bytes) (chunks : List TextChunk)
    → solid (bodies chunks) ≡ solid text
    → solid (bodies (or_whole text chunks)) ≡ solid text
or_whole-bodies text [] h =
    let n : length text - (length text - 0) ≡ 0 = omega arith in
    ap solid (append-nil _ ∙ ap (λ k. drop k text) n)
or_whole-bodies text (chunk ∷ chunks) h = h

-- Of any text, and whatever sizes are asked for, the chunks hold, behind their headings and in
-- their order, all of the text's bytes that are no spaces, and no others.
pub chunk_text-solid :
    (text : Bytes) (max_chunk_size overlap : ℕ)
    → solid (bodies (chunk_text text max_chunk_size overlap)) ≡ solid text
unfolding chunk_text
chunk_text-solid text max_chunk_size overlap =
    let start : Progress = record { chunks = []; offset = 0 } in
    let paragraphs = split_paragraphs text in
    or_whole-bodies text (chunk_loop max_chunk_size overlap paragraphs none start).chunks
      (chunk_loop-bodies max_chunk_size overlap paragraphs none start ∙ split_paragraphs-solid text)
