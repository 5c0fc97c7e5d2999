-- ===== src/Channel/Router/Turns.antt =====
-- Calls of the router of apps/xira/internal/channelrunner/progress/router.go that come between each
-- other. Each thread lets in one message after another, from `Handle` or `Route` to the end of the
-- message's turn; a step is one critical section of its call. `prune` holds the router's mutex
-- through its loop but that of an entry only while it looks at it, so its loop is a step for each key.
use xira.Shared.{ℕ, String, Bool, true, Option, none, some, List, [], ◌∷◌, eqb, if◌then◌else◌, ◌≡◌}
use xira.Shared.Dict
use xira.Channel.ChatKey.{ChatKey, key_eq}
use xira.Channel.Steering.{try_dequeue, drain_all}
use xira.Channel.Spawn.{PendingResult, deliver}
use xira.Channel.Router.{
  Router, ChatEntry, RoutingOutcome, evict, stays, get_or_create, enter_at, update_at, idled,
  new_entry, entry_of,
}

-- Where a thread stands: `got` has the entry's address and not yet its mutex, `waiting` is between
-- `Route` and `Start` or `Abort`, and `ending` between the two sections of `markComplete`.
pub data Phase : Type 0 where
  idle : Phase
  got : ChatKey → String → String → Bool → ℕ → Phase
  waiting running : ChatKey → String → Phase
  ending : ChatKey → String → ℕ → Phase

pub record System : Type 0 where
  pub router : Router
  pub threads : ℕ → Phase

abbrev pub at_phase : ℕ → Phase → (ℕ → Phase) → ℕ → Phase
at_phase i p threads j = if eqb i j then p else threads j

pub data Step : Type 0 where
  evicts : ChatKey → ℕ → Step
  gets : ℕ → ChatKey → String → String → Bool → Step
  enters : ℕ → Step
  starts : ℕ → Step
  aborts : ℕ → Step
  finishes : ℕ → Step
  idles : ℕ → ℕ → Step
  takes : ℕ → Step
  drains : ℕ → Step
  collects : ℕ → PendingResult → Step

-- `getOrCreate`, for a thread that has no message; the flag tells `Handle` from `Route`.
unfoldable pub get_step : ℕ → ChatKey → String → String → Bool → Phase → System → System
unfolding get_or_create
get_step i key id msg direct Phase.idle s =
    let found = get_or_create key s.router in
    record {
      router = found.1;
      threads = at_phase i (Phase.got key id msg direct found.0) s.threads;
    }
get_step i key id msg direct _ s = s

-- The phase after the entry's section.
abbrev pub let_in : ChatKey → String → Bool → RoutingOutcome → Phase
let_in key id direct (RoutingOutcome.steered a) = Phase.idle
let_in key id direct RoutingOutcome.started =
    if direct then Phase.running key id else Phase.waiting key id

unfoldable pub enter_step : ℕ → Phase → System → System
unfolding enter_at
enter_step i (Phase.got key id msg direct a) s =
    let entered = enter_at a id msg s.router in
    record { router = entered.1; threads = at_phase i (let_in key id direct entered.0) s.threads }
enter_step i _ s = s

unfoldable pub start_step : ℕ → Phase → System → System
start_step i (Phase.waiting key id) s = record s {
  threads = at_phase i (Phase.running key id) s.threads;
}
start_step i _ s = s

-- The first section of `markComplete`.
abbrev pub found_phase : ChatKey → String → Option ℕ → Phase
found_phase key id none = Phase.idle
found_phase key id (some a) = Phase.ending key id a

abbrev pub complete_at : ℕ → ChatKey → String → System → System
complete_at i key id s = record s {
  threads = at_phase i (found_phase key id (Dict.lookup key s.router.entries)) s.threads;
}

unfoldable pub abort_step : ℕ → Phase → System → System
abort_step i (Phase.waiting key id) s = complete_at i key id s
abort_step i _ s = s

unfoldable pub finish_step : ℕ → Phase → System → System
finish_step i (Phase.running key id) s = complete_at i key id s
finish_step i _ s = s

-- The second section of `markComplete`.
unfoldable pub idle_step : ℕ → ℕ → Phase → System → System
unfolding update_at
idle_step i now (Phase.ending key id a) s = record {
  router = update_at (idled now) a s.router;
  threads = at_phase i Phase.idle s.threads;
}
idle_step i now _ s = s

abbrev pub dequeued : ChatEntry → ChatEntry
dequeued e = record e { steering = (try_dequeue e.steering).1 }

abbrev pub drained : ChatEntry → ChatEntry
drained e = record e { steering = (drain_all e.steering).1 }

abbrev pub collected : PendingResult → ChatEntry → ChatEntry
collected pr e = record e { spawn = deliver pr e.spawn }

-- What a step does. A step of a thread that is not in the phase for it does nothing. A turn keeps its
-- queue and its collector by their addresses.
unfoldable pub step : Step → System → System
unfolding evict get_step enter_step start_step abort_step finish_step idle_step update_at
step (Step.evicts key now) s = record s { router = evict key now s.router }
step (Step.gets i key id msg direct) s = get_step i key id msg direct (s.threads i) s
step (Step.enters i) s = enter_step i (s.threads i) s
step (Step.starts i) s = start_step i (s.threads i) s
step (Step.aborts i) s = abort_step i (s.threads i) s
step (Step.finishes i) s = finish_step i (s.threads i) s
step (Step.idles i now) s = idle_step i now (s.threads i) s
step (Step.takes a) s = record s { router = update_at dequeued a s.router }
step (Step.drains a) s = record s { router = update_at drained a s.router }
step (Step.collects a pr) s = record s { router = update_at (collected pr) a s.router }

unfoldable pub run : List Step → System → System
unfolding step
run [] s = s
run (c ∷ cs) s = run cs (step c s)

abbrev pub idle_system : System
idle_system = record {
  router = record { entries = []; heap = λ a. new_entry; next = 0 };
  threads = λ i. Phase.idle;
}

-- The key of a thread's turn, if it has a turn in flight, and the turn's request.
unfoldable pub turn_key : Phase → Option ChatKey
turn_key (Phase.waiting key id) = some key
turn_key (Phase.running key id) = some key
turn_key (Phase.ending key id a) = some key
turn_key _ = none

unfoldable pub turn_request : Phase → String
turn_request (Phase.waiting key id) = id
turn_request (Phase.running key id) = id
turn_request (Phase.ending key id a) = id
turn_request _ = ""

-- The key whose entry a call has got and not yet locked.
unfoldable pub got_key : Phase → Option ChatKey
got_key (Phase.got key id msg direct a) = some key
got_key _ = none

abbrev pub is_kept : ℕ → Option ChatEntry → Bool
is_kept now none = true
is_kept now (some e) = stays now e

-- A step evicts no entry that a call has got and not yet locked.
abbrev pub IsSpared : Step → System → Type 0
IsSpared (Step.evicts key now) s =
    (i : ℕ) → got_key (s.threads i) ≡ some key → is_kept now (entry_of key s.router) ≡ true
IsSpared _ s = Unit

abbrev pub Undisturbed : List Step → System → Type 0
Undisturbed [] s = Unit
Undisturbed (c ∷ cs) s = IsSpared c s × Undisturbed cs (step c s)
