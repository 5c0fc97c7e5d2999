-- ===== src/Channel/Router/Exclusion.antt =====
-- apps/xira/internal/channelrunner/progress/router.go: the turns of a chat, one at a time.
use xira.Shared.{ℕ, true, ◌≡◌, refl, ap, ◌∙◌, some, List, [], ◌∷◌}
use xira.Shared.Dict
use xira.Channel.ChatKey.{ChatKey, key_eq}
use xira.Channel.Router.{is_active, active_request_id, entry_is_active, entry_request, entry_at}
use xira.Channel.Router.Turns.{
  System, Step, step, run, idle_system, turn_key, turn_request, IsSpared, Undisturbed, dequeued,
  drained, collected,
}
use xira.Channel.Router.Placement.{IsPlaced, Fits-turn}
use xira.Channel.Router.Mapping.{evict-IsPlaced, get-IsPlaced}
use xira.Channel.Router.Locking.{touched-IsPlaced, enter-IsPlaced}
use xira.Channel.Router.Ending.{start-IsPlaced, abort-IsPlaced, finish-IsPlaced, idle-IsPlaced}

step-IsPlaced : (c : Step) (s : System) → IsSpared c s → IsPlaced s → IsPlaced (step c s)
unfolding step
step-IsPlaced (Step.evicts key now) s free w = evict-IsPlaced key now s free w
step-IsPlaced (Step.gets i key id msg direct) s free w =
    get-IsPlaced i key id msg direct (s.threads i) s w
step-IsPlaced (Step.enters i) s free w = enter-IsPlaced i (s.threads i) s refl w
step-IsPlaced (Step.starts i) s free w = start-IsPlaced i (s.threads i) s refl w
step-IsPlaced (Step.aborts i) s free w = abort-IsPlaced i (s.threads i) s refl w
step-IsPlaced (Step.finishes i) s free w = finish-IsPlaced i (s.threads i) s refl w
step-IsPlaced (Step.idles i now) s free w = idle-IsPlaced i now (s.threads i) s refl w
step-IsPlaced (Step.takes a) s free w = touched-IsPlaced dequeued a s (λ e. refl) (λ e. refl) w
step-IsPlaced (Step.drains a) s free w = touched-IsPlaced drained a s (λ e. refl) (λ e. refl) w
step-IsPlaced (Step.collects a pr) s free w =
    touched-IsPlaced (collected pr) a s (λ e. refl) (λ e. refl) w

run-IsPlaced : (cs : List Step) (s : System) → Undisturbed cs s → IsPlaced s → IsPlaced (run cs s)
unfolding run
run-IsPlaced [] s u w = w
run-IsPlaced (c ∷ cs) s u w = run-IsPlaced cs (step c s) u.1 (step-IsPlaced c s u.0 w)

idle_system-IsPlaced : IsPlaced idle_system
unfolding turn_key Dict.lookup
idle_system-IsPlaced = record {
  below = λ k a h. cc;
  apart = λ k j a h m. cc;
  fits = λ i. tt;
  alone = λ i j k h m. cc;
}

-- Whatever messages are routed and turns started, aborted and ended, with the critical sections of
-- their calls in any order and at any times: unless a prune evicts an entry that some call has got
-- from the map and not yet locked, two turns in flight of one chat key are the same turn, the router
-- says that the key is active, and the request that it cites is that turn's.
pub turn_key-run :
    (cs : List Step)
    → Undisturbed cs idle_system
    → (i j : ℕ) (key : ChatKey) → turn_key ((run cs idle_system).threads i) ≡ some key
    → turn_key ((run cs idle_system).threads j) ≡ some key
    → (i ≡ j)
      × (is_active key (run cs idle_system).router ≡ true)
      × (active_request_id key (run cs idle_system).router
          ≡ turn_request ((run cs idle_system).threads i))
unfolding is_active active_request_id entry_is_active entry_request
turn_key-run cs u i j key h m =
    let s : System = run cs idle_system in
    let w : IsPlaced s = run-IsPlaced cs idle_system u idle_system-IsPlaced in
    let (a, at, held) = Fits-turn s.router (s.threads i) key (w.fits i) h in
    (
      w.alone i j key h m,
      ap (λ o. entry_is_active (entry_at s.router o)) at ∙ held.active,
      ap (λ o. entry_request (entry_at s.router o)) at ∙ (rw held.active held.cited),
    )
