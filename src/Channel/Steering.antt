-- ===== src/Channel/Steering.antt =====
-- apps/xira/internal/channelrunner/progress/steering_queue.go: the messages that come in while a
-- turn runs. A queue is the list `msgs`; its mutex is held through each operation.
use xira.Shared.{String, Bool, true, false, Option, none, some, List, [], ◌∷◌, ◌++◌}

abbrev pub SteeringQueue : Type 0
SteeringQueue = List String

-- `Enqueue`
unfoldable pub enqueue : String → SteeringQueue → SteeringQueue
enqueue message sq = sq ++ message ∷ []

-- `TryDequeue`
unfoldable pub try_dequeue : SteeringQueue → Option String × SteeringQueue
try_dequeue [] = (none, [])
try_dequeue (msg ∷ msgs) = (some msg, msgs)

-- `DrainAll`
unfoldable pub drain_all : SteeringQueue → List String × SteeringQueue
drain_all sq = (sq, [])

-- `HasPending`
unfoldable pub has_pending : SteeringQueue → Bool
has_pending [] = false
has_pending (msg ∷ msgs) = true
