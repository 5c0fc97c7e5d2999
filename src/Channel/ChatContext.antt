-- ===== src/Channel/ChatContext.antt =====
-- apps/xira/internal/channelrunner/progress/chatcontext.go and types.go: the progress that a turn
-- shows in its chat. Events are queued by `Deliver` and taken one by one by the send loop, each
-- under a mutex; `sent` is what has been handed to the sender since the last `Reset`.
pub mod Queueing
pub mod Sending
mod Tests
use xira.Shared.{
  ℕ, suc, String, Bool, true, false, not, ◌&&◌, ◌||◌, Option, none, some, List, [], ◌∷◌, ◌++◌, ◌==◌,
  if◌then◌else◌, ltb, leb, length,
}
use xira.Shared.Int.{ℤ, pos, negsuc}
use xira.Channel.Events.{Event, Body, kind, priority, assistant_final}
use xira.Channel.Render.{Message, render_event, is_child_event}

pub record Policy : Type 0 where
  pub initial_silence_threshold : ℕ
  pub min_interval : ℕ
  pub max_messages_per_turn : ℤ
  pub max_parent_progress_messages_per_turn : ℤ
  pub max_child_progress_messages_per_turn : ℤ
  pub max_chars : ℤ

-- `DefaultPolicy`
abbrev pub default_policy : Policy
default_policy = record {
  initial_silence_threshold = 20000000000;
  min_interval = 12000000000;
  max_messages_per_turn = pos 3;
  max_parent_progress_messages_per_turn = pos 3;
  max_child_progress_messages_per_turn = pos 2;
  max_chars = pos 180;
}

unfoldable pub is_positive : ℤ → Bool
is_positive (pos n) = ltb 0 n
is_positive (negsuc n) = false

-- `progressQuotaLimit`
unfoldable pub progress_quota_limit : Policy → Bool → ℤ
unfolding is_positive
progress_quota_limit p child =
    if child
    then (if is_positive p.max_child_progress_messages_per_turn
        then p.max_child_progress_messages_per_turn
        else p.max_messages_per_turn)
    else (if is_positive p.max_parent_progress_messages_per_turn
        then p.max_parent_progress_messages_per_turn
        else p.max_messages_per_turn)

-- A message as it was sent, and how it was counted.
pub record Sent : Type 0 where
  pub kind : String
  pub message : Message
  pub waiting : Bool
  pub child : Bool

pub record ChatContext : Type 0 where
  pub has_sender : Bool
  pub policy : Policy
  pub max_chars : ℤ
  pub queue : List Event
  pub queue_closed : Bool
  pub parent_progress_sent : ℕ
  pub child_progress_sent : ℕ
  pub dedup : List (String × String)
  pub drained : Bool
  pub sent : List Sent

-- `chatContextQueueCapacity`
abbrev pub chat_context_queue_capacity : ℕ
chat_context_queue_capacity = 256

-- `NewChatContext`
unfoldable pub new_chat_context : Bool → ℤ → Policy → ChatContext
new_chat_context has_sender max_chars policy = record {
  has_sender = has_sender;
  policy = policy;
  max_chars = max_chars;
  queue = [];
  queue_closed = false;
  parent_progress_sent = 0;
  child_progress_sent = 0;
  dedup = [];
  drained = false;
  sent = [];
}

abbrev pub after : Event → Option (List Event) → Option (List Event)
after e none = none
after e (some es) = some (e ∷ es)

-- `evictFor`: the queue without its first event of a lower priority, if it has one.
unfoldable pub evict_for : ℕ → List Event → Option (List Event)
evict_for p [] = none
evict_for p (e ∷ es) =
    let rest = evict_for p es in if ltb (priority e.body) p then some es else after e rest

abbrev pub admitted : Event → List Event → Option (List Event) → List Event
admitted e queue none = queue
admitted e queue (some rest) = rest ++ e ∷ []

unfoldable pub is_final : Body → Bool
is_final b = elim b [ assistant_final n ↦ true | _ ↦ false ]

-- The part of `Deliver` on an open queue.
unfoldable pub queued : Event → ChatContext → ChatContext
unfolding evict_for
queued e c =
    if ltb (length c.queue) chat_context_queue_capacity
    then record c { queue = c.queue ++ e ∷ [] }
    else record c { queue = admitted e c.queue (evict_for (priority e.body) c.queue) }

-- `Deliver`
unfoldable pub deliver : Event → ChatContext → ChatContext
unfolding queued is_final
deliver e c =
    if not c.has_sender || c.drained
    then c
    else (if is_final e.body
        then record c { drained = true }
        else (if c.queue_closed then c else queued e c))

-- `limit > 0 && sent >= limit`
unfoldable pub is_spent : ℤ → ℕ → Bool
is_spent (pos n) sent = ltb 0 n && leb n sent
is_spent (negsuc n) sent = false

unfoldable pub was_sent : String → String → List (String × String) → Bool
was_sent k text [] = false
was_sent k text (d ∷ ds) = (d.0 == k && d.1 == text) || was_sent k text ds

-- The part of `dispatch` that follows the rendering.
unfoldable pub dispatch_message : Event → Option Message → ChatContext → ChatContext
unfolding is_spent was_sent progress_quota_limit
dispatch_message e none c = c
dispatch_message e (some m) c =
    let k = kind e.body in
    let waiting = k == "human.requested" in
    let child = is_child_event e in
    let count = if child then c.child_progress_sent else c.parent_progress_sent in
    if not waiting && is_spent (progress_quota_limit c.policy child) count
    then c
    else (if was_sent k m.text c.dedup then c else record c {
      dedup = (k, m.text) ∷ c.dedup;
      parent_progress_sent =
          (if not waiting && not child then suc c.parent_progress_sent else c.parent_progress_sent);
      child_progress_sent =
          (if not waiting && child then suc c.child_progress_sent else c.child_progress_sent);
      sent = record { kind = k; message = m; waiting = waiting; child = child } ∷ c.sent;
    })

-- `dispatch`
unfoldable pub dispatch : (String → String) → Event → ChatContext → ChatContext
unfolding dispatch_message
dispatch to_lower e c = dispatch_message e (render_event to_lower c.max_chars e) c

unfoldable pub dispatch_first : (String → String) → List Event → ChatContext → ChatContext
unfolding dispatch
dispatch_first to_lower [] c = c
dispatch_first to_lower (e ∷ es) c = dispatch to_lower e (record c { queue = es })

-- One round of `sendLoop`: the event at the front of the queue, if there is one.
unfoldable pub send_one : (String → String) → ChatContext → ChatContext
unfolding dispatch_first
send_one to_lower c = dispatch_first to_lower c.queue c

-- `Stop`, up to the wait for the send loop.
unfoldable pub stop : ChatContext → ChatContext
stop c = record c { queue_closed = true }

-- `Reset`
unfoldable pub reset : ChatContext → ChatContext
reset c = record c {
  queue = [];
  queue_closed = false;
  parent_progress_sent = 0;
  child_progress_sent = 0;
  dedup = [];
  drained = false;
  sent = [];
}

pub data Step : Type 0 where
  delivers : Event → Step
  sends stops resets : Step

unfoldable pub step : (String → String) → Step → ChatContext → ChatContext
unfolding deliver send_one stop reset
step to_lower (Step.delivers e) c = deliver e c
step to_lower Step.sends c = send_one to_lower c
step to_lower Step.stops c = stop c
step to_lower Step.resets c = reset c

unfoldable pub run : (String → String) → List Step → ChatContext → ChatContext
unfolding step
run to_lower [] c = c
run to_lower (s ∷ ss) c = run to_lower ss (step to_lower s c)
