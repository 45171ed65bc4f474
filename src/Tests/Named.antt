-- ===== src/Tests/Named.antt =====
-- Session keys, messages, senders and texts at concrete inputs.
use ghostclaw.Base.{◌≡◌, refl, List, [], ◌∷◌, ◌++◌}
use ghostclaw.Base.Text.{Bytes, codes, has_byte, is_prefix, index_of, find}
use ghostclaw.Common.{ok}
use ghostclaw.Common.Fs.{lower_byte, to_lower, starts_with}
use ghostclaw.Sessions.Key.{
  SessionKeyParts, is_valid_component, make_session_key, parse_session_key,
}
use ghostclaw.Sessions.Key.RoundTrip.{parse-make}
use ghostclaw.Agent.MessageQueue.{
  QueuedMessage, MessageQueue, collect, steer, push, pop, pop_all, drain,
}
use ghostclaw.Agent.MessageQueue.Order.{
  push_call, pop_call, pop_all_call, pushed, returned, run, run_order, pop_all-collect,
}

abbrev parts : SessionKeyParts
parts = record { agent_id = codes "a1"; channel_id = codes "slack"; peer_id = codes "bob" }

abbrev key : Bytes
key = codes "agent:a1:channel:slack:peer:bob"

made : make_session_key parts ≡ ok key
unfolding make_session_key is_valid_component has_byte
made = refl

parsed : parse_session_key key ≡ ok parts
unfolding parse_session_key starts_with is_prefix find index_of is_valid_component has_byte
parsed = refl

parse-make_example : parse_session_key key ≡ ok parts
parse-make_example = parse-make parts key made

abbrev message : Bytes → QueuedMessage
message text = record {
  content = text;
  sender = codes "bob";
  channel = codes "slack";
  received_at = 5;
}

abbrev queue : MessageQueue
queue = record { mode = collect; queue = message (codes "first") ∷ [] }

abbrev calls : List ghostclaw.Agent.MessageQueue.Order.Call
calls = push_call (message (codes "second")) ∷ pop_call ∷ push_call (message (codes "third")) ∷ []

run_order_example : returned queue calls ++ (run queue calls).queue ≡ queue.queue ++ pushed calls
run_order_example = run_order queue calls

bob : to_lower (codes "BOB") ≡ to_lower (codes "Bob")
unfolding to_lower lower_byte
bob = refl
