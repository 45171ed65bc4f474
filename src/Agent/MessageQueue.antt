-- ===== src/Agent/MessageQueue.antt =====
-- src/agent/message_queue.cpp: messages in the order of their arrival. Each method holds the
-- mutex for its whole body, so a run of the queue is a sequence of whole calls.
pub mod Order
use ghostclaw.Base.{Bool, List, [], ◌∷◌, ◌++◌, Option, none, some, ℕ, null}
use ghostclaw.Base.Text.{Bytes}

pub data QueueMode : Type 0 where
  steer followup collect : QueueMode

pub record QueuedMessage : Type 0 where
  pub content : Bytes
  pub sender : Bytes
  pub channel : Bytes
  pub received_at : ℕ

pub record MessageQueue : Type 0 where
  pub mode : QueueMode
  pub queue : List QueuedMessage

unfoldable pub push : MessageQueue → QueuedMessage → MessageQueue
push q message = record q { queue = q.queue ++ message ∷ [] }

-- `front` and `pop`
abbrev pub split_front : List QueuedMessage → Option QueuedMessage × List QueuedMessage
split_front [] = (none, [])
split_front (m ∷ rest) = (some m, rest)

unfoldable pub pop : MessageQueue → MessageQueue × Option QueuedMessage
pop q = let (front, rest) = split_front q.queue in (record q { queue = rest }, front)

-- The loop `while (!queue_.empty())` of the mode `Collect`.
unfoldable pub drain : List QueuedMessage → List QueuedMessage → List QueuedMessage
drain out [] = out
drain out (m ∷ queue) = drain (out ++ m ∷ []) queue

abbrev pub first_only : List QueuedMessage → List QueuedMessage × List QueuedMessage
first_only [] = ([], [])
first_only (m ∷ rest) = (m ∷ [], rest)

abbrev pub take_all : QueueMode → List QueuedMessage → List QueuedMessage × List QueuedMessage
take_all collect queue = (drain [] queue, [])
take_all _ queue = first_only queue

unfoldable pub pop_all : MessageQueue → MessageQueue × List QueuedMessage
unfolding drain
pop_all q = let (out, rest) = take_all q.mode q.queue in (record q { queue = rest }, out)

unfoldable pub is_empty : MessageQueue → Bool
is_empty q = null q.queue
