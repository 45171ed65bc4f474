-- ===== src/Tests/Streamed.antt =====
-- A text that is streamed at concrete inputs.
use ghostclaw.Base.{ℕ, ◌≡◌, refl, List, [], ◌∷◌, length}
use ghostclaw.Base.Text.{Bytes, codes, equal, mem}
use ghostclaw.Agent.StreamParser.{Format, openai, anthropic, xml, Match, new_parser, add_call, feed}
use ghostclaw.Agent.StreamParser.Once.{IsParser, feed_all, joined, found_all, feed_all-IsParser}

-- The second format is found in each text.
abbrev finds : Format → Bytes → List Match
finds openai text = []
finds anthropic text = record { id = []; name = codes "shell"; arguments = codes "{}" } ∷ []
finds xml text = []

abbrev digit : ℕ → Bytes
digit n = codes "1"

abbrev no_arguments : Bytes → List (Bytes × Bytes)
no_arguments json = []

feed_all-IsParser_example :
    IsParser finds digit no_arguments
      (joined finds digit no_arguments [] (codes "a" ∷ codes "b" ∷ []))
      (found_all finds digit no_arguments [] (codes "a" ∷ codes "b" ∷ []))
      (feed_all finds digit no_arguments (codes "a" ∷ codes "b" ∷ []) new_parser)
feed_all-IsParser_example = feed_all-IsParser finds digit no_arguments (codes "a" ∷ codes "b" ∷ [])

once :
    length (feed_all finds digit no_arguments (codes "a" ∷ codes "b" ∷ []) new_parser).tool_calls
    ≡ 1
unfolding feed add_call mem equal
once = refl
