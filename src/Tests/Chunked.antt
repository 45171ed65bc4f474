-- ===== src/Tests/Chunked.antt =====
-- Chunks of a text at concrete inputs.
use ghostclaw.Base.{◌≡◌, refl, false, [], ◌∷◌, null, map}
use ghostclaw.Base.Text.{Bytes, codes, is_prefix}
use ghostclaw.Common.Fs.{trim, is_space, starts_with}
use ghostclaw.Memory.Chunker.{chunk_text}
use ghostclaw.Memory.Chunker.Solid.{solid}
use ghostclaw.Memory.Chunker.Lossless.{body, bodies, chunk_text-solid}
use ghostclaw.Memory.Chunker.Sized.{ChunksFit, chunk_text-ChunksFit}

abbrev text : Bytes
text = codes "# Top\n\nOne two. Threefold! A\n"

chunk_text-solid_example : solid (bodies (chunk_text text 8 2)) ≡ solid text
chunk_text-solid_example = chunk_text-solid text 8 2

not_blank : null (solid text) ≡ false
unfolding is_space
not_blank = refl

chunk_text-ChunksFit_example : ChunksFit 8 (chunk_text text 8 2)
chunk_text-ChunksFit_example = chunk_text-ChunksFit text 8 2 not_blank

cut :
    map body (chunk_text text 8 2)
    ≡ codes "# Top" ∷ codes "One two." ∷ codes "Threefold!" ∷ codes "A" ∷ []
unfolding chunk_text trim is_space starts_with is_prefix
cut = refl
