-- ===== src/Channel/Router/Tests.antt =====
-- Runs of the router, with calls that come between each other.
use xira.Shared.{ℕ, true, false, ◌≡◌, refl, none, some, List, [], ◌∷◌, arith}
use xira.Shared.Dict
use xira.Channel.ChatKey.{ChatKey, key_eq}
use xira.Channel.Router.{handle, is_active, active_request_id, steering_queue, stays}
use xira.Channel.Router.Turns.{Step, run, idle_system, turn_key, turn_request, got_key, Undisturbed}
use xira.Channel.Router.Exclusion.{turn_key-run}

abbrev alice : ChatKey
alice = record { channel = "feishu"; chat_id = "c1"; sender_id = "alice"; data_isolation = false }

abbrev bob : ChatKey
bob = record { channel = "feishu"; chat_id = "c1"; sender_id = "bob"; data_isolation = false }

-- Alice's second call gets her entry before her first has entered it, and steers; bob's entry is
-- evicted an hour after his turn.
abbrev steps : List Step
steps =
    Step.gets 0 alice "r1" "hello" false
    ∷ Step.gets 1 bob "r2" "hi" true
    ∷ Step.gets 2 alice "r3" "wait" true
    ∷ Step.enters 0
    ∷ Step.enters 1
    ∷ Step.enters 2
    ∷ Step.starts 0
    ∷ Step.finishes 1
    ∷ Step.idles 1 4
    ∷ Step.evicts bob 5000000000000
    ∷ []

steps-Undisturbed : Undisturbed steps idle_system
unfolding got_key run stays turn_key Dict.lookup Dict.insert Dict.remove
steps-Undisturbed =
    (tt, (tt, (tt, (tt, (tt, (tt, (tt, (tt, (tt, ((λ i g. ground arith), tt))))))))))

steps-run :
    (turn_key ((run steps idle_system).threads 0) ≡ some alice)
    × (turn_key ((run steps idle_system).threads 1) ≡ none)
    × (steering_queue alice (run steps idle_system).router ≡ some ("wait" ∷ []))
    × (steering_queue bob (run steps idle_system).router ≡ none)
unfolding run stays turn_key Dict.lookup Dict.insert Dict.remove steering_queue
steps-run = (refl, refl, refl, refl)

turn_key-run_example :
    (◌≡◌ {A = ℕ} 0 0)
    × (is_active alice (run steps idle_system).router ≡ true)
    × (active_request_id alice (run steps idle_system).router
        ≡ turn_request ((run steps idle_system).threads 0))
turn_key-run_example = turn_key-run steps steps-Undisturbed 0 0 alice steps-run.0 steps-run.0

-- The entry of alice's earlier turn is evicted after her next call has got it: her turn runs on an
-- entry that is not in the map, and her call after it starts a second turn beside it.
abbrev disturbed : List Step
disturbed =
    Step.gets 0 alice "r1" "hello" true
    ∷ Step.enters 0
    ∷ Step.finishes 0
    ∷ Step.idles 0 1
    ∷ Step.gets 0 alice "r2" "again" true
    ∷ Step.evicts alice 5000000000000
    ∷ Step.enters 0
    ∷ Step.gets 1 alice "r3" "more" true
    ∷ Step.enters 1
    ∷ []

disturbed-run :
    (turn_key ((run disturbed idle_system).threads 0) ≡ some alice)
    × (turn_key ((run disturbed idle_system).threads 1) ≡ some alice)
unfolding run stays turn_key Dict.lookup Dict.insert Dict.remove
disturbed-run = (refl, refl)

-- A message steers the turn that the message before it has started.
handle-handle :
    ((handle alice "r1" "hello" 1 idle_system.router).0 ≡ false)
    × ((handle alice "r2" "wait" 2 (handle alice "r1" "hello" 1 idle_system.router).1).0 ≡ true)
unfolding handle stays Dict.lookup Dict.insert Dict.remove
handle-handle = (refl, refl)
