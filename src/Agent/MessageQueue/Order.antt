-- ===== src/Agent/MessageQueue/Order.antt =====
-- Messages leave the queue once and in the order of their arrival (src/agent/message_queue.cpp).
use ghostclaw.Base.{
  ◌≡◌, refl, ap, sym, ◌∙◌, List, [], ◌∷◌, ◌++◌, Option, none, some, append_assoc, append-nil,
}
use ghostclaw.Agent.MessageQueue.{
  QueueMode, steer, followup, collect, QueuedMessage, MessageQueue, push, pop, split_front, drain,
  pop_all, take_all,
}

pub data Call : Type 0 where
  push_call : QueuedMessage → Call
  pop_call pop_all_call : Call

abbrev pub taken : Option QueuedMessage → List QueuedMessage
taken none = []
taken (some m) = m ∷ []

-- The queue after a call, and the messages that the call returned.
abbrev pub step : MessageQueue → Call → MessageQueue × List QueuedMessage
step q (push_call m) = (push q m, [])
step q pop_call = let (q', front) = pop q in (q', taken front)
step q pop_all_call = pop_all q

abbrev pub pushed : List Call → List QueuedMessage
pushed [] = []
pushed (push_call m ∷ calls) = m ∷ pushed calls
pushed (_ ∷ calls) = pushed calls

-- The messages that a run of calls returned, and those that are left.
abbrev pub run : MessageQueue → List Call → MessageQueue
run q [] = q
run q (c ∷ calls) = run (step q c).0 calls

abbrev pub returned : MessageQueue → List Call → List QueuedMessage
returned q [] = []
returned q (c ∷ calls) = (step q c).1 ++ returned (step q c).0 calls

drain-append : (out queue : List QueuedMessage) → drain out queue ≡ out ++ queue
unfolding drain
drain-append out [] = sym (append-nil out)
drain-append out (m ∷ queue) = drain-append (out ++ m ∷ []) queue ∙ append_assoc out (m ∷ []) queue

pop_split :
    (queue : List QueuedMessage) → taken (split_front queue).0 ++ (split_front queue).1 ≡ queue
pop_split [] = refl
pop_split (m ∷ rest) = refl

pop_all_split :
    (mode : QueueMode) (queue : List QueuedMessage)
    → (take_all mode queue).0 ++ (take_all mode queue).1 ≡ queue
pop_all_split collect queue = append-nil (drain [] queue) ∙ drain-append [] queue
pop_all_split steer [] = refl
pop_all_split steer (m ∷ rest) = refl
pop_all_split followup [] = refl
pop_all_split followup (m ∷ rest) = refl

-- A call that takes messages takes them from the front.
step_front :
    (q : MessageQueue) (c : Call) (later : List QueuedMessage)
    → (step q c).1 ++ ((step q c).0.queue ++ later) ≡ q.queue ++ (pushed (c ∷ []) ++ later)
unfolding push pop pop_all
step_front q (push_call m) later = append_assoc q.queue (m ∷ []) later
step_front q pop_call later =
    sym (append_assoc _ _ later) ∙ ap (λ k. k ++ later) (pop_split q.queue)
step_front q pop_all_call later =
    sym (append_assoc _ _ later) ∙ ap (λ k. k ++ later) (pop_all_split q.mode q.queue)

pushed-cons : (c : Call) (calls : List Call) → pushed (c ∷ calls) ≡ pushed (c ∷ []) ++ pushed calls
pushed-cons (push_call m) calls = refl
pushed-cons pop_call calls = refl
pushed-cons pop_all_call calls = refl

-- In every run of calls, in any mode, what was returned and then what is left is what was there
-- and then what was pushed.
pub run_order :
    (q : MessageQueue) (calls : List Call)
    → returned q calls ++ (run q calls).queue ≡ q.queue ++ pushed calls
run_order q [] = sym (append-nil q.queue)
run_order q (c ∷ calls) =
    append_assoc (step q c).1 (returned (step q c).0 calls) (run (step q c).0 calls).queue
    ∙ ap (λ k. (step q c).1 ++ k) (run_order (step q c).0 calls)
    ∙ step_front q c (pushed calls)
    ∙ ap (λ k. q.queue ++ k) (sym (pushed-cons c calls))

-- In the mode `collect` one call of `pop_all` returns all messages in their order and leaves the
-- queue empty.
pub pop_all-collect :
    (q : MessageQueue) → q.mode ≡ collect → ((pop_all q).0.queue ≡ []) × ((pop_all q).1 ≡ q.queue)
unfolding pop_all
pop_all-collect q e = rw e (refl, drain-append [] q.queue)
