-- ===== src/Agent/StreamParser/Firsts.antt =====
-- The calls that are reported, against the calls found (src/agent/stream_parser.cpp).
use ghostclaw.Base.{
  ℕ, ◌-◌, ◌≡◌, refl, ap, sym, ◌∙◌, false, List, [], ◌∷◌, ◌++◌, arith, ltb, length, drop, append-nil,
  Bool, ◌+◌, suc, if◌then◌else◌, inl, inr, Bool-cases,
}
use ghostclaw.Base.Text.{Bytes, mem}
use ghostclaw.Agent.StreamParser.{
  ParsedToolCall, StreamParser, add_call, max_buffer, keep_tail, cut_buffer,
}

abbrev pub AreDistinct : List Bytes → Type 0
AreDistinct [] = Unit
AreDistinct (x ∷ xs) = (mem x xs ≡ false) × AreDistinct xs

-- A call that a regular expression finds, with the id that it has as the n-th call reported.
pub record Found : Type 0 where
  pub signature : Bytes
  pub call : ℕ → ParsedToolCall

-- The found calls whose signature is not yet in `seen`, each signature at its first place.
abbrev pub firsts : List Bytes → List Found → List Found
firsts seen [] = []
firsts seen (f ∷ found) =
    if mem f.signature seen then firsts seen found else f ∷ firsts (f.signature ∷ seen) found

abbrev pub numbered : ℕ → List Found → List ParsedToolCall
numbered n [] = []
numbered n (f ∷ found) = f.call n ∷ numbered (suc n) found

-- The signatures in `seen`, and then those of some calls, the newest first.
abbrev pub with_seen : List Bytes → List Found → List Bytes
with_seen seen [] = seen
with_seen seen (f ∷ found) = with_seen (f.signature ∷ seen) found

-- The calls reported, and told to the callback, are the first ones of each signature among those
-- found, and the signatures seen are theirs, each once.
pub record ReportsFirsts (found : List Found) (p : StreamParser) : Type 0 where
  pub distinct : AreDistinct p.seen_call_signatures
  pub seen : p.seen_call_signatures ≡ with_seen [] (firsts [] found)
  pub reported : p.tool_calls ≡ numbered 1 (firsts [] found)
  pub all_told : p.told ≡ p.tool_calls

numbered-append :
    (n : ℕ) (found : List Found) (f : Found)
    → numbered n (found ++ f ∷ []) ≡ numbered n found ++ f.call (n + length found) ∷ []
numbered-append n [] f = ap (λ k. f.call k ∷ []) (omega arith)
numbered-append n (g ∷ found) f = ap (◌∷◌ (g.call n)) (
    numbered-append (suc n) found f
    ∙ ap (λ k. numbered (suc n) found ++ f.call k ∷ []) (omega arith))

length-numbered : (n : ℕ) (found : List Found) → length (numbered n found) ≡ length found
length-numbered n [] = refl
length-numbered n (f ∷ found) = omega (arith, length-numbered (suc n) found)

with_seen-append :
    (seen : List Bytes) (found : List Found) (f : Found)
    → with_seen seen (found ++ f ∷ []) ≡ f.signature ∷ with_seen seen found
with_seen-append seen [] f = refl
with_seen-append seen (g ∷ found) f = with_seen-append (g.signature ∷ seen) found f

-- One more call that is found is one more of the first ones, if its signature is new.
firsts-append :
    (seen : List Bytes) (found : List Found) (f : Found)
    → firsts seen (found ++ f ∷ [])
      ≡ firsts seen found
        ++ (if mem f.signature (with_seen seen (firsts seen found)) then [] else f ∷ [])
firsts-append seen [] f = refl
firsts-append seen (g ∷ found) f = elim (Bool-cases (mem g.signature seen)) [
  | inl old ↦ rw old (firsts-append seen found f)
  | inr new ↦ rw new (ap (◌∷◌ g) (firsts-append (g.signature ∷ seen) found f))
]

pub add_call-ReportsFirsts :
    (f : Found) (found : List Found) (p : StreamParser)
    → ReportsFirsts found p
    → ReportsFirsts (found ++ f ∷ []) (add_call f.signature (f.call (length p.tool_calls + 1)) p)
unfolding add_call
add_call-ReportsFirsts f found p h =
    let more = firsts-append [] found f in
    elim (Bool-cases (mem f.signature p.seen_call_signatures)) [
      | inl old ↦
          let same : firsts [] (found ++ f ∷ []) ≡ firsts [] found =
            more
            ∙ ap (λ (b : Bool). firsts [] found ++ (if b then [] else f ∷ []))
                (ap (mem f.signature) (sym h.seen) ∙ old)
            ∙ append-nil (firsts [] found) in
          rw old (record {
            distinct = h.distinct;
            seen = h.seen ∙ ap (with_seen []) (sym same);
            reported = h.reported ∙ ap (numbered 1) (sym same);
            all_told = h.all_told;
          })
      | inr new ↦
          let longer : firsts [] (found ++ f ∷ []) ≡ firsts [] found ++ f ∷ [] =
            more
            ∙ ap (λ (b : Bool). firsts [] found ++ (if b then [] else f ∷ []))
                (ap (mem f.signature) (sym h.seen) ∙ new) in
          let count : 1 + length (firsts [] found) ≡ length p.tool_calls + 1 =
            omega (arith, ap length h.reported, length-numbered 1 (firsts [] found)) in
          rw new (record {
            distinct = (new, h.distinct);
            seen =
                ap (◌∷◌ f.signature) h.seen
                ∙ sym (with_seen-append [] (firsts [] found) f)
                ∙ ap (with_seen []) (sym longer);
            reported =
                ap (λ calls. calls ++ f.call (length p.tool_calls + 1) ∷ []) h.reported
                ∙ ap (λ k. numbered 1 (firsts [] found) ++ f.call k ∷ []) (sym count)
                ∙ sym (numbered-append 1 (firsts [] found) f)
                ∙ ap (numbered 1) (sym longer);
            all_told = ap (λ calls. calls ++ f.call (length p.tool_calls + 1) ∷ []) h.all_told;
          })
    ]

-- The end of a text that is kept for the next chunk.
abbrev pub kept : Bytes → Bytes
kept text = if ltb max_buffer (length text) then drop (length text - keep_tail) text else text

pub cut_buffer-ReportsFirsts :
    (found : List Found) (p : StreamParser)
    → ReportsFirsts found p
    → ReportsFirsts found (cut_buffer p) × ((cut_buffer p).buffer ≡ kept p.buffer)
unfolding cut_buffer
cut_buffer-ReportsFirsts found p h = elim (Bool-cases (ltb max_buffer (length p.buffer))) [
  | inl long ↦ rw long (
    record { distinct = h.distinct; seen = h.seen; reported = h.reported; all_told = h.all_told },
    refl,
  )
  | inr short ↦ rw short (h, refl)
]

pub ReportsFirsts-same :
    {found found' : List Found} {p : StreamParser}
    → found ≡ found'
    → ReportsFirsts found p
    → ReportsFirsts found' p
ReportsFirsts-same same h = rw (← same) h
