-- ===== src/Agent/StreamParser.antt =====
-- src/agent/stream_parser.cpp: the calls of tools in the text that a model streams. `matches` gives the
-- groups of the successive matches of a regular expression, `parse_args_json` the arguments, which
-- the code reads with regular expressions, and `to_string` is std::to_string. A callback that is
-- set is told each new call.
pub mod Firsts
pub mod Once
use ghostclaw.Base.{
  ℕ, ◌+◌, ◌-◌, Bool, true, false, List, [], ◌∷◌, ◌++◌, ltb, if◌then◌else◌, length, drop,
}
use ghostclaw.Base.Text.{Bytes, codes, mem}
use ghostclaw.Common.Fs.{trim}
use ghostclaw.Common.Json.{json_unescape}

pub record ParsedToolCall : Type 0 where
  pub id : Bytes
  pub name : Bytes
  pub arguments : List (Bytes × Bytes)

-- A regular expression, by the format that it looks for.
pub data Format : Type 0 where
  openai anthropic xml : Format

-- The groups of a match; a format with two groups leaves the first one empty.
pub record Match : Type 0 where
  pub id : Bytes
  pub name : Bytes
  pub arguments : Bytes

pub record StreamParser : Type 0 where
  pub buffer : Bytes
  pub content : Bytes
  pub tool_calls : List ParsedToolCall
  pub seen_call_signatures : List Bytes
  pub told : List ParsedToolCall

abbrev pub new_parser : StreamParser
new_parser = record {
  buffer = [];
  content = [];
  tool_calls = [];
  seen_call_signatures = [];
  told = [];
}

unfoldable pub add_call : Bytes → ParsedToolCall → StreamParser → StreamParser
add_call signature call p = if mem signature p.seen_call_signatures then p else record p {
  seen_call_signatures = signature ∷ p.seen_call_signatures;
  tool_calls = p.tool_calls ++ call ∷ [];
  told = p.told ++ call ∷ [];
}

abbrev pub max_buffer : ℕ
max_buffer = 262144

abbrev pub keep_tail : ℕ
keep_tail = 131072

unfoldable pub cut_buffer : StreamParser → StreamParser
cut_buffer p =
    if ltb max_buffer (length p.buffer)
    then record p { buffer = drop (length p.buffer - keep_tail) p.buffer }
    else p

module _ (matches : Format → Bytes → List Match) (to_string : ℕ → Bytes)
    (parse_args_json : Bytes → List (Bytes × Bytes)) where
  unfoldable pub openai_call : Match → StreamParser → StreamParser
  unfolding add_call
  openai_call m p =
      let args_json = json_unescape m.arguments in
      add_call (m.id ++ (b'|' ∷ (m.name ++ (b'|' ∷ args_json))))
        (record { id = m.id; name = m.name; arguments = parse_args_json args_json }) p

  -- The two formats that have no id differ in its prefix, and in whether the name is trimmed.
  abbrev pub numbered_call : Bytes → Bytes → Bytes → StreamParser → StreamParser
  numbered_call prefix name arguments p =
      add_call (name ++ (b'|' ∷ arguments))
        (record {
          id = prefix ++ to_string (length p.tool_calls + 1);
          name = name;
          arguments = parse_args_json arguments;
        })
        p

  unfoldable pub match_call : Format → Match → StreamParser → StreamParser
  unfolding openai_call
  match_call openai m p = openai_call m p
  match_call anthropic m p = numbered_call (codes "tool-") m.name m.arguments p
  match_call xml m p = numbered_call (codes "xml-") (trim m.name) m.arguments p

  unfoldable pub match_loop : Format → List Match → StreamParser → StreamParser
  unfolding match_call
  match_loop format [] p = p
  match_loop format (m ∷ rest) p = match_loop format rest (match_call format m p)

  unfoldable pub parse_buffer : StreamParser → StreamParser
  unfolding match_loop cut_buffer
  parse_buffer p =
      let after_openai = match_loop openai (matches openai p.buffer) p in
      let after_anthropic = match_loop anthropic (matches anthropic p.buffer) after_openai in
      cut_buffer (match_loop xml (matches xml p.buffer) after_anthropic)

  unfoldable pub feed : Bytes → StreamParser → StreamParser
  unfolding parse_buffer
  feed chunk p =
      parse_buffer (record p { content = p.content ++ chunk; buffer = p.buffer ++ chunk })

  unfoldable pub finish : StreamParser → StreamParser
  unfolding parse_buffer
  finish p = parse_buffer p
