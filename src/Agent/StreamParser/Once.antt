-- ===== src/Agent/StreamParser/Once.antt =====
-- The calls reported are the first of each signature, and the buffer is a bounded end of the text
-- (src/agent/stream_parser.cpp).
use ghostclaw.Base.{
  ℕ, ◌-◌, ◌≤◌, ◌≡◌, refl, ap, sym, ◌∙◌, List, [], ◌∷◌, ◌++◌, arith, ltb, length, length-drop, take,
  drop, take-append-drop, append_assoc, append-nil, map, inl, inr, Bool-cases,
}
use ghostclaw.Base.Text.{Bytes, codes, mem}
use ghostclaw.Common.Fs.{trim}
use ghostclaw.Common.Json.{json_unescape}
use ghostclaw.Agent.StreamParser.{
  ParsedToolCall, Format, openai, anthropic, xml, Match, StreamParser, new_parser, add_call,
  max_buffer, keep_tail, cut_buffer, openai_call, match_call, match_loop, parse_buffer, feed,
}
use ghostclaw.Agent.StreamParser.Firsts.{
  Found, ReportsFirsts, add_call-ReportsFirsts, kept, cut_buffer-ReportsFirsts, ReportsFirsts-same,
}

-- The buffer is an end of the content.
abbrev pub IsEnd : Bytes → StreamParser → Type 0
IsEnd content p = (p.content ≡ content) × ((before : Bytes) × (content ≡ before ++ p.buffer))

add_call-texts :
    (signature : Bytes) (call : ParsedToolCall) (p : StreamParser)
    → ((add_call signature call p).content ≡ p.content)
      × ((add_call signature call p).buffer ≡ p.buffer)
unfolding add_call
add_call-texts signature call p = elim (Bool-cases (mem signature p.seen_call_signatures)) [
  | inl old ↦ rw old (refl, refl)
  | inr new ↦ rw new (refl, refl)
]

cut_buffer-IsEnd :
    (content : Bytes) (p : StreamParser)
    → IsEnd content p
    → IsEnd content (cut_buffer p) × (length (cut_buffer p).buffer ≤ max_buffer)
unfolding cut_buffer
cut_buffer-IsEnd content p (same, (before, ends)) =
    elim (Bool-cases (ltb max_buffer (length p.buffer))) [
      | inr short ↦ rw short ((same, (before, ends)), ground (arith, short))
      | inl long ↦
          let n = length p.buffer - keep_tail in
          rw long (
            (
              same,
              (
                before ++ take n p.buffer,
                ends
                    ∙ ap (λ t. before ++ t) (sym (take-append-drop n p.buffer))
                    ∙ sym (append_assoc before (take n p.buffer) (drop n p.buffer)),
              ),
            ),
            omega (arith, length-drop n p.buffer),
          )
    ]

three-append : (found a b c : List Found) → ((found ++ a) ++ b) ++ c ≡ found ++ (a ++ (b ++ c))
three-append found a b c = append_assoc (found ++ a) b c ∙ append_assoc found a (b ++ c)

module _ (matches : Format → Bytes → List Match) (to_string : ℕ → Bytes)
    (parse_args_json : Bytes → List (Bytes × Bytes)) where
  -- The call of a match: with an id of its own in the first format, numbered in the others.
  abbrev pub numbered_found : Bytes → Bytes → Bytes → Found
  numbered_found prefix name arguments = record {
    signature = name ++ (b'|' ∷ arguments);
    call = λ n. record {
      id = prefix ++ to_string n;
      name = name;
      arguments = parse_args_json arguments;
    };
  }

  abbrev pub found_call : Format → Match → Found
  found_call openai m =
      let json = json_unescape m.arguments in
      record {
        signature = m.id ++ (b'|' ∷ (m.name ++ (b'|' ∷ json)));
        call = λ n. record { id = m.id; name = m.name; arguments = parse_args_json json };
      }
  found_call anthropic m = numbered_found (codes "tool-") m.name m.arguments
  found_call xml m = numbered_found (codes "xml-") (trim m.name) m.arguments

  -- The calls that the three regular expressions find in a text, one format behind the other.
  abbrev pub found_in : Bytes → List Found
  found_in text =
      map (found_call openai) (matches openai text)
      ++ (map (found_call anthropic) (matches anthropic text)
          ++ map (found_call xml) (matches xml text))

  -- The calls found in the texts that are searched: each chunk behind what is kept of the text.
  abbrev pub found_all : Bytes → List Bytes → List Found
  found_all text [] = []
  found_all text (chunk ∷ chunks) =
      found_in (text ++ chunk) ++ found_all (kept (text ++ chunk)) chunks

  -- What a format does to the parser: its calls are reported, and its texts stay.
  match_call-ReportsFirsts :
      (format : Format) (m : Match) (found : List Found) (p : StreamParser)
      → ReportsFirsts found p
      → ReportsFirsts
          (found ++ found_call format m ∷ [])
          (match_call matches to_string parse_args_json format m p)
  unfolding match_call openai_call
  match_call-ReportsFirsts openai m found p h =
      add_call-ReportsFirsts (found_call openai m) found p h
  match_call-ReportsFirsts anthropic m found p h =
      add_call-ReportsFirsts (found_call anthropic m) found p h
  match_call-ReportsFirsts xml m found p h = add_call-ReportsFirsts (found_call xml m) found p h

  match_call-texts :
      (format : Format) (m : Match) (p : StreamParser)
      → ((match_call matches to_string parse_args_json format m p).content ≡ p.content)
        × ((match_call matches to_string parse_args_json format m p).buffer ≡ p.buffer)
  unfolding match_call openai_call
  match_call-texts openai m p = add_call-texts _ _ p
  match_call-texts anthropic m p = add_call-texts _ _ p
  match_call-texts xml m p = add_call-texts _ _ p

  match_loop-ReportsFirsts :
      (format : Format) (ms : List Match) (found : List Found) (p : StreamParser)
      → ReportsFirsts found p
      → ReportsFirsts
          (found ++ map (found_call format) ms)
          (match_loop matches to_string parse_args_json format ms p)
  unfolding match_loop
  match_loop-ReportsFirsts format [] found p h = rw (append-nil found) h
  match_loop-ReportsFirsts format (m ∷ ms) found p h =
      rw (← append_assoc found (found_call format m ∷ []) (map (found_call format) ms)) (
        match_loop-ReportsFirsts format ms (found ++ found_call format m ∷ []) _
          (match_call-ReportsFirsts format m found p h))

  match_loop-IsEnd :
      (format : Format) (ms : List Match) (content : Bytes) (p : StreamParser)
      → IsEnd content p
      → IsEnd content (match_loop matches to_string parse_args_json format ms p)
  unfolding match_loop
  match_loop-IsEnd format [] content p h = h
  match_loop-IsEnd format (m ∷ ms) content p (same, (before, ends)) =
      let (c, b) = match_call-texts format m p in
      match_loop-IsEnd format ms content _
        (c ∙ same, (before, ends ∙ ap (λ t. before ++ t) (sym b)))

  match_loop-buffer :
      (format : Format) (ms : List Match) (p : StreamParser)
      → (match_loop matches to_string parse_args_json format ms p).buffer ≡ p.buffer
  unfolding match_loop
  match_loop-buffer format [] p = refl
  match_loop-buffer format (m ∷ ms) p =
      match_loop-buffer format ms _ ∙ (match_call-texts format m p).1

  abbrev pub feed_all : List Bytes → StreamParser → StreamParser
  feed_all [] p = p
  feed_all (chunk ∷ chunks) p = feed_all chunks (feed matches to_string parse_args_json chunk p)

  abbrev pub joined : Bytes → List Bytes → Bytes
  joined content [] = content
  joined content (chunk ∷ chunks) = joined (content ++ chunk) chunks

  -- What holds of a parser between two chunks.
  abbrev pub IsParser : Bytes → List Found → StreamParser → Type 0
  IsParser content found p =
      ReportsFirsts found p × IsEnd content p × (length p.buffer ≤ max_buffer)

  feed-IsParser :
      (content chunk : Bytes) (found : List Found) (p : StreamParser)
      → IsParser content found p
      → IsParser
          (content ++ chunk)
          (found ++ found_in (p.buffer ++ chunk))
          (feed matches to_string parse_args_json chunk p)
        × ((feed matches to_string parse_args_json chunk p).buffer ≡ kept (p.buffer ++ chunk))
  unfolding feed parse_buffer
  feed-IsParser content chunk found p (once, (same, (before, ends)), _) =
      let text = p.buffer ++ chunk in
      let fed = record p { content = p.content ++ chunk; buffer = text } in
      let once0 : ReportsFirsts found fed = record {
        distinct = once.distinct;
        seen = once.seen;
        reported = once.reported;
        all_told = once.all_told;
      } in
      let end0 : IsEnd (content ++ chunk) fed = (
        ap (λ t. t ++ chunk) same,
        (before, ap (λ t. t ++ chunk) ends ∙ append_assoc before p.buffer chunk),
      ) in
      let once1 = match_loop-ReportsFirsts openai (matches openai text) found fed once0 in
      let end1 = match_loop-IsEnd openai (matches openai text) (content ++ chunk) fed end0 in
      let once2 = match_loop-ReportsFirsts anthropic (matches anthropic text) _ _ once1 in
      let end2 = match_loop-IsEnd anthropic (matches anthropic text) (content ++ chunk) _ end1 in
      let once3 = match_loop-ReportsFirsts xml (matches xml text) _ _ once2 in
      let end3 = match_loop-IsEnd xml (matches xml text) (content ++ chunk) _ end2 in
      let (ends, bounded) = cut_buffer-IsEnd (content ++ chunk) _ end3 in
      let (last, tail) = cut_buffer-ReportsFirsts _ _ once3 in
      let whole =
        three-append found (map (found_call openai) (matches openai text))
          (map (found_call anthropic) (matches anthropic text))
          (map (found_call xml) (matches xml text)) in
      let buffer3 =
        match_loop-buffer xml (matches xml text) _
        ∙ match_loop-buffer anthropic (matches anthropic text) _
        ∙ match_loop-buffer openai (matches openai text) fed in
      ((ReportsFirsts-same whole last, ends, bounded), tail ∙ ap kept buffer3)

  feed_all-from :
      (chunks : List Bytes) (content buffer : Bytes) (found : List Found) (p : StreamParser)
      → p.buffer ≡ buffer
      → IsParser content found p
      → IsParser (joined content chunks) (found ++ found_all buffer chunks) (feed_all chunks p)
  feed_all-from [] content buffer found p same h = rw (append-nil found) h
  feed_all-from (chunk ∷ chunks) content buffer found p same h =
      let (fed, tail) = feed-IsParser content chunk found p h in
      let fed' : IsParser (content ++ chunk) (found ++ found_in (buffer ++ chunk))
          (feed matches to_string parse_args_json chunk p) =
        rw (← same) fed in
      rw
        (← append_assoc found (found_in (buffer ++ chunk))
          (found_all (kept (buffer ++ chunk)) chunks))
        (feed_all-from chunks (content ++ chunk) (kept (buffer ++ chunk))
          (found ++ found_in (buffer ++ chunk)) (feed matches to_string parse_args_json chunk p)
          (tail ∙ ap (λ t. kept (t ++ chunk)) same) fed')

  -- Of any chunks, and whatever the regular expressions find: the content is the chunks one behind
  -- the other, and the buffer is an end of it of at most 256 KiB. The calls reported are, in their
  -- order, those found in the texts that are searched, each signature once, where it is found first,
  -- and the callback has been told the same calls.
  pub feed_all-IsParser :
      (chunks : List Bytes)
      → IsParser (joined [] chunks) (found_all [] chunks) (feed_all chunks new_parser)
  feed_all-IsParser chunks = feed_all-from chunks [] [] [] new_parser refl (
    record { distinct = tt; seen = refl; reported = refl; all_told = refl },
    (refl, ([], refl)),
    omega arith,
  )
