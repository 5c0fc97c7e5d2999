-- ===== src/Channel/Router.antt =====
-- apps/xira/internal/channelrunner/progress/router.go: per chat key, at most one turn and the queue
-- of messages that steer it. A call holds one mutex after another, and other calls may come between
-- these sections: Turns has the steps. `None` is Go's zero time.
pub mod Turns
pub mod Placement
pub mod Mapping
pub mod Locking
pub mod Ending
pub mod Exclusion
mod Tests
use xira.Shared.{
  ℕ, String, Bool, true, false, not, ◌||◌, ◌&&◌, Option, none, some, [], ◌∷◌, ◌+◌, suc, eqb, ltb,
  if◌then◌else◌,
}
use xira.Shared.Dict
use xira.Shared.Dict.{Dict}
use xira.Channel.ChatKey.{ChatKey, key_eq}
use xira.Channel.Steering.{SteeringQueue, enqueue}
use xira.Channel.Spawn.{SpawnCollector}

pub record ChatEntry : Type 0 where
  pub active : Bool
  pub active_request_id : String
  pub steering : SteeringQueue
  pub spawn : SpawnCollector
  pub idle_since : Option ℕ

-- The map's pointers are addresses: an entry that has left the map may still be held by a call.
pub record Router : Type 0 where
  pub entries : Dict ChatKey ℕ
  pub heap : ℕ → ChatEntry
  pub next : ℕ

abbrev pub put_at : ℕ → ChatEntry → (ℕ → ChatEntry) → ℕ → ChatEntry
put_at a e heap b = if eqb a b then e else heap b

-- `routerEntryTTL`, in nanoseconds.
abbrev pub router_entry_ttl : ℕ
router_entry_ttl = 3600000000000

-- The entry stays: the negation of the loop's test in `prune`.
unfoldable pub stays : ℕ → ChatEntry → Bool
stays now e = e.active || recent e.idle_since
  where
    recent : Option ℕ → Bool
    recent none = true
    recent (some t) = not (ltb (t + router_entry_ttl) now)

-- The loop of `prune` at one key, by the address of the key's entry.
unfoldable pub evict_at : ChatKey → ℕ → Router → Option ℕ → Router
unfolding stays
evict_at key now r none = r
evict_at key now r (some a) =
    if stays now (r.heap a) then r else record r { entries = Dict.remove key r.entries }

unfoldable pub evict : ChatKey → ℕ → Router → Router
unfolding evict_at
evict key now r = evict_at key now r (Dict.lookup key r.entries)

unfoldable pub evict_all : Dict ChatKey ℕ → ℕ → Router → Router
unfolding evict
evict_all [] now r = r
evict_all ((key, a) ∷ rest) now r = evict_all rest now (evict key now r)

-- `prune`
unfoldable pub prune : ℕ → Router → Router
unfolding evict_all
prune now r = evict_all r.entries now r

abbrev pub new_entry : ChatEntry
new_entry = record {
  active = false;
  active_request_id = "";
  steering = [];
  spawn = [];
  idle_since = none;
}

-- `getOrCreate` by the address of the key's entry.
unfoldable pub get_at : ChatKey → Router → Option ℕ → ℕ × Router
get_at key r (some a) = (a, r)
get_at key r none = (
  r.next,
  record {
    entries = Dict.insert key r.next r.entries;
    heap = put_at r.next new_entry r.heap;
    next = suc r.next;
  },
)

-- `getOrCreate`, the address of the entry beside the router that holds it.
unfoldable pub get_or_create : ChatKey → Router → ℕ × Router
unfolding get_at
get_or_create key r = get_at key r (Dict.lookup key r.entries)

-- `RoutingOutcome`; the started one carries what `Start` and `Abort` close over.
pub data RoutingOutcome : Type 0 where
  steered : String → RoutingOutcome
  started : RoutingOutcome

-- What happens to the entry of the key under its mutex.
unfoldable pub enter : String → String → ChatEntry → RoutingOutcome × ChatEntry
unfolding enqueue
enter request_id msg e =
    if e.active
    then (
      RoutingOutcome.steered e.active_request_id,
      record e { steering = enqueue msg e.steering },
    )
    else (RoutingOutcome.started, record e { active = true; active_request_id = request_id })

-- The section of a call under the mutex of its entry.
unfoldable pub enter_at : ℕ → String → String → Router → RoutingOutcome × Router
unfolding enter
enter_at a request_id msg r =
    let entered = enter request_id msg (r.heap a) in
    (entered.0, record r { heap = put_at a entered.1 r.heap })

-- `Route`, when no other call comes between its three sections.
unfoldable pub route : ChatKey → String → String → ℕ → Router → RoutingOutcome × Router
unfolding prune get_or_create enter_at
route key request_id msg now r =
    let got = get_or_create key (prune now r) in enter_at got.0 request_id msg got.1

unfoldable pub is_steered : RoutingOutcome → Bool
is_steered (RoutingOutcome.steered id) = true
is_steered RoutingOutcome.started = false

-- `Handle`, likewise: whether the message steers. A started turn runs at once.
unfoldable pub handle : ChatKey → String → String → ℕ → Router → Bool × Router
unfolding prune get_or_create enter_at is_steered
handle key request_id msg now r =
    let got = get_or_create key (prune now r) in
    let entered = enter_at got.0 request_id msg got.1 in (is_steered entered.0, entered.1)

-- A change of the entry at an address.
unfoldable pub update_at : (ChatEntry → ChatEntry) → ℕ → Router → Router
update_at f a r = record r { heap = put_at a (f (r.heap a)) r.heap }

abbrev pub idled : ℕ → ChatEntry → ChatEntry
idled now e = record e { active = false; active_request_id = ""; idle_since = some now }

-- `markComplete`, when no other call comes between its two sections.
unfoldable pub mark_complete : ChatKey → ℕ → Router → Router
unfolding update_at
mark_complete key now r = complete (Dict.lookup key r.entries)
  where
    complete : Option ℕ → Router
    complete none = r
    complete (some a) = update_at (idled now) a r

abbrev pub entry_at : Router → Option ℕ → Option ChatEntry
entry_at r none = none
entry_at r (some a) = some (r.heap a)

-- The entry that the map has for a key.
abbrev pub entry_of : ChatKey → Router → Option ChatEntry
entry_of key r = entry_at r (Dict.lookup key r.entries)

unfoldable pub entry_is_active : Option ChatEntry → Bool
entry_is_active none = false
entry_is_active (some e) = e.active

-- `IsActive`
unfoldable pub is_active : ChatKey → Router → Bool
unfolding entry_is_active
is_active key r = entry_is_active (entry_of key r)

unfoldable pub entry_request : Option ChatEntry → String
entry_request none = ""
entry_request (some e) = if e.active then e.active_request_id else ""

-- `ActiveRequestID`
unfoldable pub active_request_id : ChatKey → Router → String
unfolding entry_request
active_request_id key r = entry_request (entry_of key r)

-- `SteeringQueue`
unfoldable pub steering_queue : ChatKey → Router → Option SteeringQueue
steering_queue key r = found (entry_of key r)
  where
    found : Option ChatEntry → Option SteeringQueue
    found none = none
    found (some e) = some e.steering

-- `SpawnCollectorFor`
unfoldable pub spawn_collector_for : ChatKey → Router → Option SpawnCollector
spawn_collector_for key r = found (entry_of key r)
  where
    found : Option ChatEntry → Option SpawnCollector
    found none = none
    found (some e) = some e.spawn
